-- ===== src/Orbit/Refine.antt =====
-- `refinePassTiming` of src/backend/prediction/orbit.ts. Instants lie later than the first three
-- minutes of the epoch, so a step back by `-` is exact.
pub mod Laws
use noaa_satellite_capture.Base.{
  ℕ, zero, suc, ◌+◌, ◌-◌, ◌*◌, Option, none, some, if◌then◌else◌, ℤ, pos, ltb_ℤ, for_instants,
}
use noaa_satellite_capture.Types.{TwoLineElement, SatellitePosition, SatellitePass}
use noaa_satellite_capture.Orbit.{SatelliteJs, Observer, get_satellite_position}

-- `searchDirection: 1 | -1`.
pub data Direction : Type 0 where
  backward forward : Direction

-- `current.setSeconds(current.getSeconds() + searchDirection * s)`.
abbrev pub move : Direction → ℕ → ℕ → ℕ
move backward s t = t - s * 1000
move forward s t = t + s * 1000

abbrev pub reverse : Direction → Direction
reverse backward = forward
reverse forward = backward

-- The `for` loop with the given rounds left; `break` and the end of the loop return `approximate`.
unfoldable pub refine_from : ℤ → (ℕ → Option SatellitePosition) → ℕ → Direction → ℕ → ℕ → ℕ
refine_from min_elevation position_at approximate direction zero current = approximate
refine_from min_elevation position_at approximate direction (suc i) current =
    let rest =
      refine_from min_elevation position_at approximate direction i (move direction 1 current) in
    elim (position_at current) [
      | none ↦ approximate
      | some position ↦
          if ltb_ℤ min_elevation position.elevation
          then rest
          else move (reverse direction) 1 current
    ]

unfoldable pub refine_time : ℤ → (ℕ → Option SatellitePosition) → ℕ → Direction → ℕ
unfolding refine_from
refine_time min_elevation position_at approximate direction =
    refine_from min_elevation position_at approximate direction 120 (move direction 60 approximate)

-- The variables of the second loop, which looks for the culmination.
pub record Peak : Type 0 where
  pub max_elev : ℤ
  pub max_elev_time : ℕ

unfoldable pub visit_peak : (ℕ → Option SatellitePosition) → ℕ → Peak → Peak
visit_peak position_at check_time s = elim (position_at check_time) [
  | none ↦ s
  | some position ↦
      if ltb_ℤ s.max_elev position.elevation
      then record { max_elev = position.elevation; max_elev_time = check_time }
      else s
]

unfoldable pub find_peak : (ℕ → Option SatellitePosition) → ℕ → ℕ → ℕ → Peak
unfolding visit_peak
find_peak position_at refined_aos refined_los time =
    for_instants 10_000 refined_los (visit_peak position_at) refined_aos
      (record { max_elev = pos 0; max_elev_time = time })

unfoldable pub refine_pass_timing :
    (lib : SatelliteJs) → TwoLineElement → SatellitePass → Observer lib → ℤ → SatellitePass
unfolding refine_time find_peak
refine_pass_timing lib tle pass observer min_elevation =
    let position_at = get_satellite_position lib tle observer in
    let refined_aos = refine_time min_elevation position_at pass.aos backward in
    let refined_los = refine_time min_elevation position_at pass.los forward in
    let peak = find_peak position_at refined_aos refined_los pass.max_elevation_time in
    record pass {
      aos = refined_aos;
      los = refined_los;
      max_elevation = peak.max_elev;
      max_elevation_time = peak.max_elev_time;
      duration = refined_los - refined_aos;
    }
