-- ===== src/RunLoop/Tests.antt =====
-- A round without elements, and one with them.

use noaa_satellite_capture.Base.{true, false, none, [], pos}
use noaa_satellite_capture.StateManager.{initial}
use noaa_satellite_capture.Orbit.Tests.{flat}
use noaa_satellite_capture.Fft.Stream.{initial_stream}
use noaa_satellite_capture.Events.{initial_events}
use noaa_satellite_capture.Tle as Tle
use noaa_satellite_capture.Scheduler.{recording_throws, saves_nothing, Outside}
use noaa_satellite_capture.RunLoop.{LoopConfig, Round, Service, satellites_of, run_round}
use noaa_satellite_capture.RunLoop.Laws.{IsFine, run_round-IsFine}

abbrev loop_config : LoopConfig
loop_config = record {
  station = record { latitude = pos 51; longitude = pos 0; altitude = pos 10 };
  min_elevation = pos 20_000;
  update_interval_hours = 24;
  skip_signal_check = false;
}

abbrev quiet_pass : Outside
quiet_pass = record {
  checked_at = 900_000;
  waited_from = 900_000;
  scanner_runs = false;
  ground_scan_enabled = false;
  while_waiting = λ shared. shared;
  while_stopping = λ shared. shared;
  stopped_at = 900_000;
  while_released = λ shared. shared;
  begun_at = 900_000;
  while_checking = λ shared. shared;
  started_at = 950_000;
  ended_at = 1_700_000;
  signal_ok = true;
  while_recording = λ shared. shared;
  recorded_at = 1_690_000;
  while_decoding = λ shared. shared;
  progress = [];
  recording = recording_throws "rtl_fm";
  saving = saves_nothing;
}

abbrev offline_round : Round
offline_round = record {
  now = 820_000;
  elements = record { now = 820_000; fetch = λ s. Tle.throws; is_writable = true };
  answers = λ p. quiet_pass;
}

abbrev new_service : Service
new_service = record {
  world = record { manager = initial 0; stream = initial_stream; should_stop = false; saved = [] };
  files = record { cache_json = none; weather_txt = none };
  events = initial_events false;
}

run_round-IsFine_example :
    IsFine
      (satellites_of offline_round new_service)
      (run_round flat loop_config offline_round new_service)
run_round-IsFine_example = run_round-IsFine flat loop_config offline_round new_service
