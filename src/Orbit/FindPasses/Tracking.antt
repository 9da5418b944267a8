-- ===== src/Orbit/FindPasses/Tracking.antt =====
-- What is known of a pass of `findPasses` from its rise to its end.
use noaa_satellite_capture.Base.{
  ℕ, ◌+◌, ◌-◌, ◌≤◌, ◌<◌, ◌≡◌, refl, inl, inr, true, false, none, some, arith, Bool-cases, ◌≤ℤ◌,
  ◌<ℤ◌, ltb_ℤ,
}
use noaa_satellite_capture.Types.{SatellitePosition}
use noaa_satellite_capture.Orbit.FindPasses.{Search, is_acceptable, begin_pass, follow_pass}
use noaa_satellite_capture.Orbit.FindPasses.Invariant.{
  Walk, IsQuiet, IsSound, IsTracked, Inv, IsInstant-next, IsVisible-next,
}

module _ (walk : Walk) where
  open walk use {position_at, sat, start_time, end_time, min_elevation, step}

  pub visit_begin :
      (c : ℕ) (s : Search) (p : SatellitePosition)
      → 0 < step
      → position_at c ≡ some p
      → min_elevation <ℤ p.elevation
      → s.in_pass ≡ false
      → IsQuiet walk c
      → start_time ≤ c
      → Inv walk c s
      → IsTracked walk (c + step) (begin_pass c p.elevation s) c c
  unfolding begin_pass
  visit_begin c s p h e low out quiet after v = record {
    active = refl;
    started = refl;
    peaked = refl;
    after_start = after;
    peak_after = omega arith;
    peak_before = omega arith;
    rises = (p, e, low);
    culminates = (p, e, refl);
    visible =
        IsVisible-next walk c c p.elevation p.elevation p v.instant e low (omega arith)
          (omega arith) (λ t it la lb. absurd (omega arith));
    preceded = quiet;
    later = v.before;
  }

  pub visit_follow :
      (c : ℕ) (s : Search) (p : SatellitePosition) (a m : ℕ)
      → 0 < step
      → position_at c ≡ some p
      → min_elevation <ℤ p.elevation
      → Inv walk c s
      → IsTracked walk c s a m
      → (n : ℕ) × IsTracked walk (c + step) (follow_pass c p.elevation s) a n
  unfolding follow_pass
  visit_follow c s p a m h e low v w = elim (Bool-cases (ltb_ℤ s.max_elev p.elevation)) [
    | inl higher ↦ rw higher (
      c,
      record {
        active = w.active;
        started = w.started;
        peaked = refl;
        after_start = w.after_start;
        peak_after = omega arith;
        peak_before = omega arith;
        rises = w.rises;
        culminates = (p, e, refl);
        visible =
            IsVisible-next walk a c s.max_elev p.elevation p v.instant e low (omega arith)
              (ground arith) w.visible;
        preceded = w.preceded;
        later = w.later;
      },
    )
    | inr lower ↦ rw lower (
      m,
      record {
        active = w.active;
        started = w.started;
        peaked = w.peaked;
        after_start = w.after_start;
        peak_after = w.peak_after;
        peak_before = omega arith;
        rises = w.rises;
        culminates = w.culminates;
        visible =
            IsVisible-next walk a c s.max_elev s.max_elev p v.instant e low (ground arith)
              (omega arith) w.visible;
        preceded = w.preceded;
        later = w.later;
      },
    )
  ]

  -- The pass that ends at `c`, where it is long and short enough.
  pub ended-IsSound :
      (c : ℕ) (s : Search) (p : SatellitePosition) (a m : ℕ)
      → position_at c ≡ some p
      → p.elevation ≤ℤ min_elevation
      → c ≤ end_time
      → is_acceptable (c - a) ≡ true
      → IsTracked walk c s a m
      → IsSound walk (record {
        satellite = sat;
        aos = a;
        los = c;
        max_elevation = s.max_elev;
        max_elevation_time = m;
        duration = c - a;
      })
  ended-IsSound c s p a m e set inside ok w = record {
    satellite = refl;
    after_start = w.after_start;
    before_end = inside;
    lasts = omega arith;
    long_enough = ground arith;
    short_enough = ground arith;
    rises = w.rises;
    preceded = w.preceded;
    sets = (p, e, set);
    culminates = w.culminates;
    peak_after = w.peak_after;
    peak_before = w.peak_before;
    visible = w.visible;
  }

  pub missing-IsTracked :
      (c : ℕ) (s : Search) (a m : ℕ)
      → 0 < step
      → position_at c ≡ none
      → Inv walk c s
      → IsTracked walk c s a m
      → IsTracked walk (c + step) s a m
  missing-IsTracked c s a m h missing v w = record {
    active = w.active;
    started = w.started;
    peaked = w.peaked;
    after_start = w.after_start;
    peak_after = w.peak_after;
    peak_before = omega arith;
    rises = w.rises;
    culminates = w.culminates;
    visible = λ t it la lb q e. elim (IsInstant-next walk t c v.instant it lb) [
      | inl old ↦ w.visible t it la old q e
      | inr now ↦ absurd (ground arith)
    ];
    preceded = w.preceded;
    later = w.later;
  }
