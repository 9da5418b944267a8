-- ===== src/Relay/Handlers.antt =====
-- src/sdr-relay/server.ts: the requests for recordings and signal checks.

use noaa_satellite_capture.Base.{
  ℕ, ◌-◌, ◌*◌, ◌/◌, String, ◌⊎◌, inl, inr, Bool, true, false, not, Option, none, some, leb,
  if◌then◌else◌, min_of,
}
use noaa_satellite_capture.Fft.Stream.{is_fft_stream_running, stop_begin, start_fft_stream}
use noaa_satellite_capture.Relay.Sessions.{
  recording, complete, SessionData, idle, records, is_recording_mode, is_recording_session, Relay,
  relay_callback, get_session, set_session,
}

pub data RelayAnswer : Type 0 where
  started : String → RelayAnswer
  stopped : String → RelayAnswer
  session : SessionData → RelayAnswer
  signal : Bool → RelayAnswer
  audio : String → RelayAnswer
  refused : ℕ → String → RelayAnswer

-- `POST /sdr/capture/start` before `await startRecording`: `some` is a refusal. The stop of the
-- stream is not awaited: the flag tells that the rest of it, `stop_end`, still waits.
unfoldable pub capture_begin : Relay → Relay × Bool × Option RelayAnswer
unfolding stop_begin
capture_begin r =
    let (stream, waits) = stop_begin r.stream in
    if is_recording_mode r.current_mode
    then (r, false, some (refused 409 "SDR is already recording"))
    else if is_fft_stream_running r.stream
    then (record r { stream = stream }, waits, none)
    else (r, false, none)

-- After it: the recording runs and writes to a path, or there is an error.
unfoldable pub capture_end : ℕ → String → ℕ → ℕ → String ⊎ String → Relay → Relay × RelayAnswer
capture_end now id frequency seconds (inl path) r =
    let entry : SessionData = record {
      start_time = now;
      duration_seconds = seconds;
      status = recording;
      progress = 0;
      output_path = path;
      frequency = frequency;
    } in
    (
      record r { current_mode = records; active_sessions = set_session id entry r.active_sessions },
      started id,
    )
capture_end now id frequency seconds (inr message) r =
    (record r { current_mode = idle }, refused 500 message)

-- One tick of the progress timer, and whether the timer goes on and the recording is told to stop.
unfoldable pub progress_tick : ℕ → String → Relay → Relay × Bool × Bool
progress_tick now id r = elim (get_session id r.active_sessions) [
  | none ↦ (r, false, false)
  | some d ↦
      let elapsed = now - d.start_time in
      let progress = min_of 100 (elapsed * 100 / (d.duration_seconds * 1_000)) in
      let next = record r {
        active_sessions = set_session id (record d { progress = progress }) r.active_sessions;
      } in
      let over = leb (d.duration_seconds * 1_000) elapsed in
      if is_recording_session d.status then (next, not over, over) else (r, false, false)
]

-- The recording of a session has stopped: on its own time, or as `POST /sdr/capture/stop` asks.
unfoldable pub session_stopped : String → SessionData → Relay → Relay
session_stopped id d r = record r {
  current_mode = idle;
  active_sessions = set_session id (record d { status = complete }) r.active_sessions;
}

-- `POST /sdr/capture/stop`, where nothing comes between its parts.
unfoldable pub capture_stop : String → Relay → Relay × RelayAnswer
unfolding session_stopped
capture_stop id r = elim (get_session id r.active_sessions) [
  | none ↦ (r, refused 404 "Session not found")
  | some d ↦ (session_stopped id d r, stopped d.output_path)
]

-- `GET /sdr/capture/:sessionId`.
unfoldable pub get_capture : String → Relay → RelayAnswer
get_capture id r = elim (get_session id r.active_sessions) [
  | none ↦ refused 404 "Session not found"
  | some d ↦ session d
]

-- `GET /sdr/capture/:sessionId/audio`; the file may not be readable.
unfoldable pub get_audio : (String → Option String) → String → Relay → RelayAnswer
get_audio read_file id r = elim (get_session id r.active_sessions) [
  | none ↦ refused 404 "Recording not complete or not found"
  | some d ↦
      if is_recording_session d.status
      then refused 404 "Recording not complete or not found"
      else elim (read_file d.output_path) [
        | none ↦ refused 500 "Failed to read audio file"
        | some bytes ↦ audio bytes
      ]
]

-- The part of `POST /sdr/signal/check` before `await verifySignalAtFrequency`: an answer is a
-- refusal; the first flag is `wasFFTRunning`, the second tells that the stop it began still waits.
unfoldable pub signal_begin : Relay → Relay × Bool × Bool × Option RelayAnswer
signal_begin r =
    let (stream, waits) = stop_begin r.stream in
    if is_recording_mode r.current_mode
    then (r, false, false, some (refused 409 "SDR is currently recording"))
    else if is_fft_stream_running r.stream
    then (record r { stream = stream }, true, waits, none)
    else (r, false, false, none)

-- The part after it: the check gives a verdict or throws, and the stream is to be started again.
unfoldable pub signal_end : ℕ → Option ℕ → Bool → Bool ⊎ String → Relay → Relay × RelayAnswer
signal_end now spawned was_fft_running verdict r =
    let restarted : Relay = elim r.stream.current_config [
      | none ↦ r
      | some config ↦ record r {
        stream = (start_fft_stream now config relay_callback spawned r.stream).0;
      }
    ] in
    let next = if was_fft_running then restarted else r in
    (next, elim verdict [ inl detected ↦ signal detected | inr message ↦ refused 500 message ])
