-- ===== src/StateManager/Tests.antt =====
-- A station over one pass, and the theorems of src/backend/state/state-manager.ts at it.
use noaa_satellite_capture.Base.{ℕ, ◌≡◌, refl, true, none, List, [], ◌∷◌, pos}
use noaa_satellite_capture.Types.{SatellitePass, CaptureResult, waiting}
use noaa_satellite_capture.Satellites.{meteor_n2_3}
use noaa_satellite_capture.StateManager.{
  StateManager, initial, set_status, start_pass, update_progress, complete_pass, update_passes,
}
use noaa_satellite_capture.StateManager.Laws.{
  Call, sets_status, starts_pass, updates_progress, completes_pass, updates_passes, apply, run,
  replay, timeless, run-initial-replay,
}

abbrev evening : SatellitePass
evening = record {
  satellite = meteor_n2_3;
  aos = 1_000_000;
  los = 1_600_000;
  max_elevation = pos 55_000;
  max_elevation_time = 1_300_000;
  duration = 600_000;
}

abbrev captured_at : ℕ → CaptureResult
captured_at t = record {
  satellite = meteor_n2_3;
  recording_path = "a.wav";
  image_paths = [];
  start_time = t;
  end_time = 1_700_000;
  max_signal_strength = pos 0;
  success = true;
  error = none;
}

abbrev night : List (ℕ × Call)
night =
    (1, updates_passes (evening ∷ []))
    ∷ (2, sets_status waiting)
    ∷ (3, starts_pass evening)
    ∷ (4, updates_progress 50 300 600)
    ∷ (5, completes_pass (captured_at 1_000_000))
    ∷ []

night_ends : (run night (initial 0)).state.upcoming_passes ≡ []
unfolding run initial apply update_passes set_status start_pass update_progress complete_pass
night_ends = refl

run-initial-replay_example :
    timeless (run night (initial 0)).state ≡ replay (run night (initial 0)).emitted
run-initial-replay_example = run-initial-replay 0 night

abbrev queued : StateManager
queued = run ((1, updates_passes (evening ∷ [])) ∷ []) (initial 0)
