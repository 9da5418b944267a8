-- ===== src/Passes.antt =====
-- src/backend/prediction/passes.ts: the passes of all satellites, on top of the search for the passes
-- of one (Orbit). The texts of `formatPass` and `formatPassesTable` are not modelled.
pub mod Names
pub mod Doppler
pub mod Tracks
pub mod Laws
pub mod Positions
mod Tests
use noaa_satellite_capture.Base.{
  ℕ, ◌+◌, ◌*◌, Bool, true, false, ◌&&◌, Option, none, some, List, [], ◌∷◌, ◌++◌, map, leb,
  if◌then◌else◌, filter, find, ℤ, pos, leb_ℤ, for_instants, sort_by,
}
use noaa_satellite_capture.Types.{
  Coordinates, SatelliteInfo, TwoLineElement, SatellitePosition, GroundTrack, SatellitePass,
}
use noaa_satellite_capture.Orbit.{SatelliteJs, Observer, create_observer, get_satellite_position}
use noaa_satellite_capture.Orbit.FindPasses.{find_passes, default_step_seconds}
use noaa_satellite_capture.Orbit.Refine.{refine_pass_timing}
use noaa_satellite_capture.Passes.Names.{is_tle_of, is_named_for}
use noaa_satellite_capture.Passes.Doppler.{Arithmetic, DopplerData, calculate_doppler_shift}

-- `PredictionOptions`; the defaults are the current time, 24 hours and 20 degrees.
pub record PredictionOptions : Type 0 where
  pub start_time : ℕ
  pub hours_ahead : ℕ
  pub min_elevation : ℤ

-- `PassPrediction`.
pub record PassPrediction : Type 0 where
  pub pass : SatellitePass
  pub positions : List SatellitePosition
  pub doppler : Option DopplerData

abbrev pub end_of : PredictionOptions → ℕ
end_of o = o.start_time + o.hours_ahead * 60 * 60 * 1000

-- `passes.filter(...)` of `filterHighQualityPasses`; elevations are in thousandths of a degree and
-- durations in milliseconds.
unfoldable pub is_high_quality : ℤ → SatellitePass → Bool
is_high_quality min_elevation pass =
    if leb_ℤ (pos 40_000) pass.max_elevation
    then true
    else if leb_ℤ min_elevation pass.max_elevation && leb 360_000 pass.duration
    then true
    else false

unfoldable pub filter_high_quality_passes : ℤ → List SatellitePass → List SatellitePass
filter_high_quality_passes min_elevation passes = filter (is_high_quality min_elevation) passes

-- The body of the loop of `getPassPositions`.
unfoldable pub push_position :
    (ℕ → Option SatellitePosition) → ℕ → List SatellitePosition → List SatellitePosition
push_position position_at current positions = elim (position_at current) [
  | none ↦ positions
  | some position ↦ positions ++ position ∷ []
]

module _ (lib : SatelliteJs) where
  -- The refined passes of one satellite, by the element set that its name or number chooses; none
  -- when there is no such set.
  unfoldable pub passes_of :
      List TwoLineElement → Observer lib → PredictionOptions → SatelliteInfo → List SatellitePass
  passes_of tles observer o sat = elim (find (is_tle_of sat) tles) [
    | none ↦ []
    | some tle ↦
        map (λ pass. refine_pass_timing lib tle pass observer o.min_elevation)
          (find_passes lib tle sat observer o.start_time (end_of o) o.min_elevation
            default_step_seconds)
  ]

  -- The loop over the satellites.
  unfoldable pub all_passes :
      List SatelliteInfo
      → List TwoLineElement
      → Observer lib
      → PredictionOptions
      → List SatellitePass
  all_passes [] tles observer o = []
  all_passes (sat ∷ sats) tles observer o =
      passes_of tles observer o sat ++ all_passes sats tles observer o

  unfoldable pub predict_passes :
      List SatelliteInfo
      → List TwoLineElement
      → Coordinates
      → PredictionOptions
      → List SatellitePass
  predict_passes sats tles station o =
      sort_by (λ p. p.aos) (all_passes sats tles (create_observer lib station) o)

  -- The step is in seconds, with the default 10.
  unfoldable pub get_pass_positions :
      TwoLineElement → SatellitePass → Coordinates → ℕ → List SatellitePosition
  get_pass_positions tle pass station step_seconds =
      for_instants (step_seconds * 1000) pass.los
        (push_position (get_satellite_position lib tle (create_observer lib station))) pass.aos []

  unfoldable pub prediction :
      Arithmetic → List TwoLineElement → Coordinates → SatellitePass → PassPrediction
  prediction ar tles station pass = elim (find (is_named_for pass.satellite) tles) [
    | none ↦ record { pass = pass; positions = []; doppler = none }
    | some tle ↦
        let positions = get_pass_positions tle pass station 10 in
        record {
          pass = pass;
          positions = positions;
          doppler = some (calculate_doppler_shift ar pass.satellite.frequency positions);
        }
  ]

  unfoldable pub predict_passes_with_doppler :
      Arithmetic
      → List SatelliteInfo
      → List TwoLineElement
      → Coordinates
      → PredictionOptions
      → List PassPrediction
  predict_passes_with_doppler ar sats tles station o =
      map (prediction ar tles station) (predict_passes sats tles station o)
