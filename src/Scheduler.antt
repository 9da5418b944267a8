-- ===== src/Scheduler.antt =====
-- src/backend/scheduler/scheduler.ts: the passes are waited for and captured one after the other.
-- What the clock, the SDR, the decoder and the database answer during a pass is an argument.
pub mod Captures
pub mod Laws
mod Tests
use noaa_satellite_capture.Base.{
  ℕ, ◌+◌, ◌-◌, ◌*◌, ◌/◌, ◌%◌, String, Bool, true, false, not, ◌&&◌, Option, none, some, List, [],
  ◌∷◌, ltb, leb, if◌then◌else◌, min_of, pos,
}
use noaa_satellite_capture.Types.{
  SatelliteInfo, SatellitePass, CaptureResult, ceil_seconds, waiting, decoding, scanning,
}
use noaa_satellite_capture.Satellites.{capture_buffer_seconds}
use noaa_satellite_capture.StateManager.{
  StateManager, set_status, start_pass, update_progress, complete_pass,
}
use noaa_satellite_capture.Fft.Stream.{FftStream, is_fft_stream_running, stop_begin, stop_end}

-- How `recordPass` ends, and `decodeRecording` after it.
pub data Recording : Type 0 where
  recording_throws : String → Recording
  decoding_throws : String → String → Recording
  decodes : String → Option (List String) → Recording

-- How the two writes of `saveResultToDatabase` end.
pub data Saving : Type 0 where
  saves : Saving
  saves_without_images : Saving
  saves_nothing : Saving

-- What the other parts of the program, such as the web server or a scan, do to the state that they
-- share with the scheduler while it awaits.
abbrev pub Meanwhile : Type 0
Meanwhile = StateManager × FftStream → StateManager × FftStream

-- The answers from outside during one pass, and what the other parts do at each await of
-- `waitForPass` and `capturePass`; `progress` holds the calls of the progress callback.
pub record Outside : Type 0 where
  pub checked_at : ℕ
  pub waited_from : ℕ
  pub scanner_runs : Bool
  pub ground_scan_enabled : Bool
  pub while_waiting : Meanwhile
  pub while_stopping : Meanwhile
  pub stopped_at : ℕ
  pub while_released : Meanwhile
  pub begun_at : ℕ
  pub while_checking : Meanwhile
  pub started_at : ℕ
  pub ended_at : ℕ
  pub signal_ok : Bool
  pub progress : List (ℕ × ℕ)
  pub while_recording : Meanwhile
  pub recorded_at : ℕ
  pub while_decoding : Meanwhile
  pub recording : Recording
  pub saving : Saving

-- The state manager, the spectrum stream, `shouldStop` of the SSTV scanner, and the rows that were
-- saved with the images of each, newest first.
pub record World : Type 0 where
  pub manager : StateManager
  pub stream : FftStream
  pub should_stop : Bool
  pub saved : List (CaptureResult × SatellitePass × List String)

unfoldable pub meanwhile : Meanwhile → World → World
meanwhile others w =
    let (manager, stream) = others (w.manager, w.stream) in
    record w { manager = manager; stream = stream }

abbrev pub min_idle_for_sstv_scan : ℕ
min_idle_for_sstv_scan = 180

-- What `waitForPass` does: nothing, a sleep, or a sleep beside a scan of at most some seconds.
pub data Waiting : Type 0 where
  starts_now : Waiting
  sleeps : ℕ → Waiting
  sleeps_and_scans : ℕ → ℕ → Waiting

-- `pass.aos` less the buffer; instants are not before the epoch.
abbrev pub target_time : SatellitePass → ℕ
target_time pass = pass.aos - capture_buffer_seconds * 1_000

-- `may_scan`: the scanner does not run, and ground scanning is enabled.
unfoldable pub wait_decision : Bool → ℕ → SatellitePass → Waiting
wait_decision may_scan now pass =
    let wait_ms = target_time pass - now in
    let wait_seconds = ceil_seconds wait_ms in
    if leb (target_time pass) now
    then starts_now
    else if ltb min_idle_for_sstv_scan wait_seconds && may_scan
    then sleeps_and_scans wait_ms (min_of (wait_seconds - 60) 120)
    else sleeps wait_ms

-- The instant at which `waitForPass` returns.
abbrev pub resumed_at : ℕ → Waiting → ℕ
resumed_at now starts_now = now
resumed_at now (sleeps ms) = now + ms
resumed_at now (sleeps_and_scans ms seconds) = now + ms

-- The part of `scanForSstv` up to its first await that the scheduler sees.
unfoldable pub begin_scan : ℕ → World → World
begin_scan now w = record w { manager = set_status now scanning w.manager; should_stop = false }

-- `stopSstvScanner`.
unfoldable pub stop_sstv_scanner : World → World
stop_sstv_scanner w = record w { should_stop = true }

-- `waitForPass`: the scan that it starts goes on in `while_waiting`, with the callback that stops it
-- half a minute before the end, and is told to stop after the sleep.
unfoldable pub wait_for_pass : Outside → SatellitePass → World → World
unfolding wait_decision meanwhile begin_scan stop_sstv_scanner
wait_for_pass o pass w =
    let waits = record w { manager = set_status o.waited_from waiting w.manager } in
    let may_scan = not o.scanner_runs && o.ground_scan_enabled in
    elim (wait_decision may_scan o.waited_from pass) [
      | starts_now ↦ waits
      | sleeps ms ↦ meanwhile o.while_waiting waits
      | sleeps_and_scans ms seconds ↦
          stop_sstv_scanner (meanwhile o.while_waiting (begin_scan o.waited_from waits))
    ]

-- `saveResultToDatabase`: an error of the database is logged, and a row that was written before it
-- stays.
unfoldable pub save_result_to_database : Saving → CaptureResult → SatellitePass → World → World
save_result_to_database saves_nothing result pass w = w
save_result_to_database saves_without_images result pass w = record w {
  saved = (result, pass, []) ∷ w.saved;
}
save_result_to_database saves result pass w = record w {
  saved = (result, pass, result.image_paths) ∷ w.saved;
}

-- `Math.round((elapsed / total) * 100)`.
abbrev pub percent : ℕ → ℕ → ℕ
percent elapsed total = (200 * elapsed + total) / (2 * total)

unfoldable pub report_progress : ℕ → List (ℕ × ℕ) → World → World
report_progress now [] w = w
report_progress now ((elapsed, total) ∷ calls) w =
    report_progress now calls
      (record w { manager = update_progress now (percent elapsed total) elapsed total w.manager })

unfoldable pub failed_result : SatelliteInfo → ℕ → ℕ → String → CaptureResult
failed_result satellite start_time end_time message = record {
  satellite = satellite;
  recording_path = "";
  image_paths = [];
  start_time = start_time;
  end_time = end_time;
  max_signal_strength = pos 0;
  success = false;
  error = some message;
}

abbrev pub or_no_paths : Option (List String) → List String
or_no_paths none = []
or_no_paths (some paths) = paths

-- `saveResultToDatabase(result, pass)` and `completePass(result)`.
unfoldable pub finish_capture : Outside → SatellitePass → CaptureResult → World → World
unfolding save_result_to_database
finish_capture o pass result w =
    let saved = save_result_to_database o.saving result pass w in
    record saved { manager = complete_pass o.ended_at result saved.manager }

unfoldable pub decoded_result :
    Outside → SatellitePass → String → Option (List String) → CaptureResult
decoded_result o pass path paths = record {
  satellite = pass.satellite;
  recording_path = path;
  image_paths = or_no_paths paths;
  start_time = o.started_at;
  end_time = o.ended_at;
  max_signal_strength = pos 0;
  success = true;
  error = none;
}

-- The part of `capturePass` in its `try` and `catch`.
unfoldable pub record_and_decode : Outside → SatellitePass → World → World × CaptureResult
unfolding report_progress meanwhile failed_result finish_capture decoded_result
record_and_decode o pass w =
    let recorded = meanwhile o.while_recording (report_progress o.started_at o.progress w) in
    let begun = record recorded { manager = set_status o.recorded_at decoding recorded.manager } in
    let decoded = meanwhile o.while_decoding begun in
    elim o.recording [
      | recording_throws message ↦
          let result = failed_result pass.satellite o.started_at o.ended_at message in
          (finish_capture o pass result recorded, result)
      | decoding_throws path message ↦
          let result = failed_result pass.satellite o.started_at o.ended_at message in
          (finish_capture o pass result decoded, result)
      | decodes path paths ↦
          let result = decoded_result o pass path paths in
          (finish_capture o pass result decoded, result)
    ]

-- The stop of a running stream, cut at its await, and the sleep after it.
unfoldable pub release_stream : Outside → World → World
unfolding meanwhile stop_begin stop_end
release_stream o w =
    let (stopping, waited) = stop_begin w.stream in
    let between = meanwhile o.while_stopping (record w { stream = stopping }) in
    meanwhile o.while_released
      (record between { stream = stop_end o.stopped_at waited between.stream })

-- `capturePass`; `skip` is `config.recording.skipSignalCheck`.
unfoldable pub capture_pass : Bool → Outside → SatellitePass → World → World × CaptureResult
unfolding record_and_decode release_stream
capture_pass skip o pass w =
    let released = if is_fft_stream_running w.stream then release_stream o w else w in
    let begun = record released { manager = start_pass o.begun_at pass released.manager } in
    let checked = meanwhile o.while_checking begun in
    let weak = failed_result pass.satellite o.started_at o.ended_at "Signal too weak" in
    if skip
    then record_and_decode o pass begun
    else if not o.signal_ok
    then (finish_capture o pass weak checked, weak)
    else record_and_decode o pass checked

-- The loop of `runScheduler`; each pass comes with what is answered during it.
unfoldable pub run_scheduler :
    Bool → List (SatellitePass × Outside) → World → World × List CaptureResult
unfolding wait_for_pass
run_scheduler skip [] w = (w, [])
run_scheduler skip ((pass, o) ∷ passes) w =
    let (captured, result) = capture_pass skip o pass (wait_for_pass o pass w) in
    let (skipped_world, skipped_results) = run_scheduler skip passes w in
    let (world, results) = run_scheduler skip passes captured in
    if ltb pass.los o.checked_at
    then (skipped_world, skipped_results)
    else (world, result ∷ results)
