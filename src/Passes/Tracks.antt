-- ===== src/Passes/Tracks.antt =====
-- `computeGroundTrack` of src/backend/prediction/ground-track.ts.
use noaa_satellite_capture.Base.{ℕ, ◌+◌, ◌*◌, Option, none, some, List, [], ◌∷◌, ◌++◌, for_instants}
use noaa_satellite_capture.Types.{SatelliteInfo, TwoLineElement, GroundTrackPoint, GroundTrack}
use noaa_satellite_capture.Orbit.{SatelliteJs}

module _ (lib : SatelliteJs) where
  -- The body of the loop; what `propagate` throws is caught, and the instant left out.
  unfoldable pub push_point : lib.SatRec → ℕ → List GroundTrackPoint → List GroundTrackPoint
  push_point satrec current points = elim (lib.propagate satrec current) [
    | none ↦ points
    | some answer ↦ elim answer [
      | none ↦ points
      | some position ↦
          let gmst = lib.gstime current in
          points
          ++ record {
            lat = lib.degrees_lat (lib.geodetic_latitude position gmst);
            lng = lib.degrees_long (lib.geodetic_longitude position gmst);
          }
            ∷ []
    ]
  ]

  -- `none` where `twoline2satrec` throws, which nothing here catches.
  unfoldable pub compute_ground_track :
      TwoLineElement → SatelliteInfo → ℕ → ℕ → ℕ → Option GroundTrack
  compute_ground_track tle info start_time duration_minutes step_seconds =
      elim (lib.twoline2satrec tle.line1 tle.line2) [
        | none ↦ none
        | some satrec ↦ some (record {
          norad_id = info.norad_id;
          name = info.name;
          signal_type = info.signal_type;
          points =
              for_instants (step_seconds * 1000) (start_time + duration_minutes * 60 * 1000)
                (push_point satrec) start_time [];
        })
      ]
