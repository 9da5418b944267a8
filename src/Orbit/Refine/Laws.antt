-- ===== src/Orbit/Refine/Laws.antt =====
-- What `refinePassTiming` of src/backend/prediction/orbit.ts does to the passes of `findPasses`.
use noaa_satellite_capture.Base.{
  ℕ, zero, suc, ◌+◌, ◌-◌, ◌*◌, ◌≤◌, ◌≡◌, refl, ap, ◌∙◌, ◌⊎◌, inl, inr, Option, some, arith,
  Bool-cases, Option-cases, In, All-In, ℤ, ◌≤ℤ◌, ltb_ℤ, not_ltb_ℤ→le,
}
use noaa_satellite_capture.Types.{SatelliteInfo, TwoLineElement, SatellitePosition, SatellitePass}
use noaa_satellite_capture.Orbit.{SatelliteJs, Observer, get_satellite_position}
use noaa_satellite_capture.Orbit.FindPasses.{find_passes, default_step_seconds}
use noaa_satellite_capture.Orbit.FindPasses.Invariant.{IsSound}
use noaa_satellite_capture.Orbit.FindPasses.Laws.{walk_of, find_passes-IsSound}
use noaa_satellite_capture.Orbit.Refine.{
  Direction, backward, forward, move, reverse, refine_from, refine_time, refine_pass_timing,
}

module _ (min_elevation : ℤ) (position_at : ℕ → Option SatellitePosition) (approximate : ℕ) where
  -- The refined time is the old one, or an instant next to one with a position at which the
  -- satellite is not above the elevation, between 59 and 178 seconds away.
  abbrev pub IsRefined : Direction → ℕ → Type 0
  IsRefined backward t =
      (t ≡ approximate)
      ⊎ ((p : SatellitePosition) × (position_at (t - 1000) ≡ some p)
          × (p.elevation ≤ℤ min_elevation)
          × (t + 59_000 ≤ approximate)
          × (approximate ≤ t + 178_000))
  IsRefined forward t =
      (t ≡ approximate)
      ⊎ ((p : SatellitePosition) × (position_at (t + 1000) ≡ some p)
          × (p.elevation ≤ℤ min_elevation)
          × (approximate + 59_000 ≤ t)
          × (t ≤ approximate + 178_000))

  refine_from-backward :
      (i current : ℕ)
      → 180_000 ≤ approximate
      → current + 60_000 ≤ approximate
      → approximate ≤ current + 180_000 - i * 1000
      → i ≤ 120
      → IsRefined backward (refine_from min_elevation position_at approximate backward i current)
  unfolding refine_from
  refine_from-backward zero current h a b k = inl refl
  refine_from-backward (suc i) current h a b k = elim (Option-cases (position_at current)) [
    | inl missing ↦ rw (missing, refine_from) (inl refl)
    | inr (p, e) ↦ elim (Bool-cases (ltb_ℤ min_elevation p.elevation)) [
      | inl high ↦
          let ih =
            refine_from-backward i (current - 1000) h (omega arith) (omega arith) (omega arith) in
          rw (e, refine_from) (rw high ih)
      | inr low ↦
          rw (e, refine_from)
            (rw low (
              inr (
                p,
                ap position_at (omega arith) ∙ e,
                not_ltb_ℤ→le min_elevation p.elevation low,
                omega arith,
                omega arith,
              )))
    ]
  ]

  refine_from-forward :
      (i current : ℕ)
      → approximate + 60_000 ≤ current
      → current + i * 1000 ≤ approximate + 180_000
      → IsRefined forward (refine_from min_elevation position_at approximate forward i current)
  unfolding refine_from
  refine_from-forward zero current a b = inl refl
  refine_from-forward (suc i) current a b = elim (Option-cases (position_at current)) [
    | inl missing ↦ rw (missing, refine_from) (inl refl)
    | inr (p, e) ↦ elim (Bool-cases (ltb_ℤ min_elevation p.elevation)) [
      | inl high ↦
          let ih = refine_from-forward i (current + 1000) (omega arith) (omega arith) in
          rw (e, refine_from) (rw high ih)
      | inr low ↦
          rw (e, refine_from)
            (rw low (
              inr (
                p,
                ap position_at (omega arith) ∙ e,
                not_ltb_ℤ→le min_elevation p.elevation low,
                omega arith,
                omega arith,
              )))
    ]
  ]

  refine_time-backward :
      180_000 ≤ approximate
      → IsRefined backward (refine_time min_elevation position_at approximate backward)
  unfolding refine_time
  refine_time-backward h =
      refine_from-backward 120 (approximate - 60_000) h (omega arith) (omega arith) (omega arith)

  refine_time-forward :
      IsRefined forward (refine_time min_elevation position_at approximate forward)
  unfolding refine_time
  refine_time-forward = refine_from-forward 120 (approximate + 60_000) (omega arith) (omega arith)

  refine_from_low :
      (d : Direction) (i current : ℕ) (p : SatellitePosition)
      → position_at current ≡ some p
      → p.elevation ≤ℤ min_elevation
      → refine_from min_elevation position_at approximate d (suc i) current
        ≡ move (reverse d) 1 current
  unfolding refine_from
  refine_from_low d i current p e low = ground arith

  -- Where the satellite is not above the elevation a minute away, nothing is searched.
  refine_time_low :
      (d : Direction) (p : SatellitePosition)
      → position_at (move d 60 approximate) ≡ some p
      → p.elevation ≤ℤ min_elevation
      → refine_time min_elevation position_at approximate d
        ≡ move (reverse d) 1 (move d 60 approximate)
  unfolding refine_time
  refine_time_low d p e low = refine_from_low d 119 (move d 60 approximate) p e low

module _ (lib : SatelliteJs) (tle : TwoLineElement) (pass : SatellitePass) (observer : Observer lib)
    (min_elevation : ℤ) where
  -- For a pass that starts after the first three minutes of the epoch, refining keeps the
  -- satellite, and moves the start to an earlier and the end to a later time, by at most 178
  -- seconds: each is unchanged, or borders on an instant at which the satellite is not above the
  -- elevation and lies 59 seconds or more from the old time. The duration is the time between.
  pub refine_pass_timing-IsRefined :
      180_000 ≤ pass.aos
      → pass.aos ≤ pass.los
      → let refined = refine_pass_timing lib tle pass observer min_elevation in
        let position_at = get_satellite_position lib tle observer in
        (refined.satellite ≡ pass.satellite)
        × IsRefined min_elevation position_at pass.aos backward refined.aos
        × IsRefined min_elevation position_at pass.los forward refined.los
        × (refined.aos + refined.duration ≡ refined.los)
  unfolding refine_pass_timing
  refine_pass_timing-IsRefined h k =
      let position_at = get_satellite_position lib tle observer in
      let a = refine_time-backward min_elevation position_at pass.aos h in
      let b = refine_time-forward min_elevation position_at pass.los in (refl, a, b, ground arith)

  -- Let a pass come from a walk of `findPasses` with the default step of 60 seconds that had
  -- visited the instant before the start, where the satellite had a position, and let the
  -- satellite have a position at most as high as the elevation a minute after the end. Then the
  -- refined start is the old one less 59 seconds and the refined end the old one and 59 seconds:
  -- the search by seconds stops at its first step.
  pub refine_pass_timing_widens :
      (sat : SatelliteInfo) (start_time end_time : ℕ) (before after : SatellitePosition)
      → In pass
          (find_passes lib tle sat observer start_time end_time min_elevation default_step_seconds)
      → start_time + 60_000 ≤ pass.aos
      → get_satellite_position lib tle observer (pass.aos - 60_000) ≡ some before
      → get_satellite_position lib tle observer (pass.los + 60_000) ≡ some after
      → after.elevation ≤ℤ min_elevation
      → let refined = refine_pass_timing lib tle pass observer min_elevation in
        (refined.aos + 59_000 ≡ pass.aos) × (refined.los ≡ pass.los + 59_000)
  unfolding refine_pass_timing
  refine_pass_timing_widens sat start_time end_time before after found h eb ea low =
      let position_at = get_satellite_position lib tle observer in
      let walk = walk_of lib tle sat observer start_time end_time min_elevation 60 in
      let sound =
        All-In (IsSound walk) _
          (find_passes-IsSound lib tle sat observer start_time end_time min_elevation 60
            (omega arith)).0
          found in
      let quiet = sound.preceded (pass.aos - 60_000) (omega arith) (omega arith) before eb in
      let rises = refine_time_low min_elevation position_at pass.aos backward before eb quiet in
      let sets = refine_time_low min_elevation position_at pass.los forward after ea low in
      (rw rises (omega arith), rw sets (omega arith))
