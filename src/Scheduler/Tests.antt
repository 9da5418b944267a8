-- ===== src/Scheduler/Tests.antt =====
-- The scheduler of src/backend/scheduler/scheduler.ts over two passes, and its theorems at them.
use noaa_satellite_capture.Base.{◌≡◌, true, false, none, [], ◌∷◌, map, pos}
use noaa_satellite_capture.Types.{SatellitePass, CaptureResult}
use noaa_satellite_capture.Satellites.{meteor_n2_3}
use noaa_satellite_capture.StateManager.{initial, update_passes}
use noaa_satellite_capture.Fft.Stream.{initial_stream}
use noaa_satellite_capture.Scheduler.{
  decodes, saves, Meanwhile, Outside, World, capture_pass, run_scheduler,
}
use noaa_satellite_capture.Scheduler.Captures.{capture_pass_lem}
use noaa_satellite_capture.Scheduler.Laws.{run_scheduler_lem}

abbrev evening : SatellitePass
evening = record {
  satellite = meteor_n2_3;
  aos = 1_000_000;
  los = 1_600_000;
  max_elevation = pos 55_000;
  max_elevation_time = 1_300_000;
  duration = 600_000;
}

abbrev nothing_else : Meanwhile
nothing_else shared = shared

abbrev heard : Outside
heard = record {
  checked_at = 500_000;
  waited_from = 500_010;
  scanner_runs = false;
  ground_scan_enabled = true;
  while_waiting = nothing_else;
  while_stopping = nothing_else;
  stopped_at = 940_000;
  while_released = nothing_else;
  begun_at = 940_001;
  while_checking = nothing_else;
  started_at = 941_000;
  ended_at = 1_700_000;
  signal_ok = true;
  while_recording = nothing_else;
  recorded_at = 1_660_000;
  while_decoding = nothing_else;
  progress = (300, 720) ∷ (720, 720) ∷ [];
  recording = decodes "a.wav" none;
  saving = saves;
}

abbrev too_late : Outside
too_late = record heard { checked_at = 2_000_000 }

abbrev start_world : World
start_world = record {
  manager = update_passes 0 (evening ∷ []) (initial 0);
  stream = initial_stream;
  should_stop = false;
  saved = [];
}

capture_pass_lem_example : (capture_pass false heard evening start_world).1.satellite ≡ meteor_n2_3
capture_pass_lem_example = (capture_pass_lem false heard evening start_world).5

run_scheduler_lem_example :
    map
      (λ (r : CaptureResult). r.satellite)
      (run_scheduler false ((evening, too_late) ∷ (evening, heard) ∷ []) start_world).1
    ≡ meteor_n2_3 ∷ []
run_scheduler_lem_example =
    (run_scheduler_lem false ((evening, too_late) ∷ (evening, heard) ∷ []) start_world).0
