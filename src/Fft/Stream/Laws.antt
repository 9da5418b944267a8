-- ===== src/Fft/Stream/Laws.antt =====
-- The stream of src/backend/capture/fft-stream.ts, one call after another.
use noaa_satellite_capture.Base.{
  ℕ, ◌+◌, ◌≤◌, ◌<◌, String, ◌≡◌, ◌≢◌, true, false, Option, none, some, List, [], ◌∷◌, arith,
}
use noaa_satellite_capture.Fft.{FftStreamConfig}
use noaa_satellite_capture.Fft.Stream.{
  FftStream, initial_stream, is_alive, is_fft_stream_running, stop_fft_stream, release_wait,
  start_fft_stream, on_error, on_close, update_fft_frequency,
}

-- A running stream has a process, a configuration and a callback.
pub record IsConsistent (s : FftStream) : Type 0 where
  pub has_process : s.is_running ≡ true → s.sdr_process ≢ none
  pub has_config : s.is_running ≡ true → s.current_config ≢ none
  pub has_callback : s.is_running ≡ true → s.current_callback ≢ none

-- A call of an exported function, or an event of the process, at a time.
pub data Event : Type 0 where
  starts : FftStreamConfig → ℕ → Option ℕ → Event
  stops : Event
  updates_frequency : ℕ → Option ℕ → Event
  errors : String → Event
  closes : Option String → Event

unfoldable pub step : ℕ → Event → FftStream → FftStream
step now (starts config callback spawned) s = (start_fft_stream now config callback spawned s).0
step now stops s = stop_fft_stream now s
step now (updates_frequency f spawned) s = (update_fft_frequency now f spawned s).0
step now (errors m) s = on_error m s
step now (closes m) s = on_close now m s

unfoldable pub run : List (ℕ × Event) → FftStream → FftStream
unfolding step
run [] s = s
run ((now, e) ∷ es) s = run es (step now e s)

start-IsConsistent :
    (now : ℕ) (c : FftStreamConfig) (k : ℕ) (p : Option ℕ) (s : FftStream)
    → IsConsistent s
    → IsConsistent (start_fft_stream now c k p s).0
unfolding start_fft_stream
start-IsConsistent now c k p s v = ground arith

stop-IsConsistent :
    (now : ℕ) (s : FftStream) → IsConsistent s → IsConsistent (stop_fft_stream now s)
unfolding stop_fft_stream
stop-IsConsistent now s v = ground arith

update-IsConsistent :
    (now f : ℕ) (p : Option ℕ) (s : FftStream)
    → IsConsistent s
    → IsConsistent (update_fft_frequency now f p s).0
unfolding update_fft_frequency
update-IsConsistent now f p s v = ground arith

step-IsConsistent :
    (now : ℕ) (e : Event) (s : FftStream) → IsConsistent s → IsConsistent (step now e s)
unfolding step on_error on_close
step-IsConsistent now (starts c k p) s v = start-IsConsistent now c k p s v
step-IsConsistent now stops s v = stop-IsConsistent now s v
step-IsConsistent now (updates_frequency f p) s v = update-IsConsistent now f p s v
step-IsConsistent now (errors m) s v = ground arith
step-IsConsistent now (closes m) s v = ground arith

run-IsConsistent :
    (es : List (ℕ × Event)) (s : FftStream) → IsConsistent s → IsConsistent (run es s)
unfolding run
run-IsConsistent [] s v = v
run-IsConsistent ((now, e) ∷ es) s v =
    run-IsConsistent es (step now e s) (step-IsConsistent now e s v)

-- After any calls and process events, one after the other, a stream that is marked as running has
-- a process, a configuration and a callback.
pub run-initial_stream-IsConsistent : (es : List (ℕ × Event)) → IsConsistent (run es initial_stream)
run-initial_stream-IsConsistent es =
    run-IsConsistent es initial_stream (unfold initial_stream in ground arith)

-- After `stopFFTStream` the stream is not running, and no configuration, callback, frame or error
-- is left; the time of the stop is kept if a process was told to end.
pub stop_fft_stream_lem :
    (now : ℕ) (s : FftStream)
    → let t = stop_fft_stream now s in
      (is_fft_stream_running t ≡ false)
      × (t.current_config ≡ none)
      × (t.current_callback ≡ none)
      × (t.latest_data ≡ none)
      × (t.last_error ≡ none)
      × (t.averaging_count ≡ 0)
      × (is_alive s.sdr_process ≡ true → (t.sdr_process ≡ none) × (t.last_stop_time ≡ now))
unfolding stop_fft_stream is_fft_stream_running
stop_fft_stream_lem now s = ground arith

-- A start at the frequency of the running stream leaves the process and its configuration as they
-- were, whatever gain, size or rate the new configuration asks for.
pub start_fft_stream_keeps_gain :
    (now : ℕ) (c old : FftStreamConfig) (k : ℕ) (p : Option ℕ) (s : FftStream)
    → s.is_running ≡ true
    → s.current_config ≡ some old
    → c.frequency ≡ old.frequency
    → let t = (start_fft_stream now c k p s).0 in
      (t.current_config ≡ some old) × (t.sdr_process ≡ s.sdr_process)
unfolding start_fft_stream
start_fft_stream_keeps_gain now c old k p s r e f = ground arith

-- The sleep before a spawn lasts at most four seconds, and ends four seconds after the last stop
-- or later, if there was one.
release_wait_lem :
    (now : ℕ) (s : FftStream)
    → s.last_stop_time ≤ now
    → (release_wait now s ≤ 4_000)
      × (0 < s.last_stop_time → s.last_stop_time + 4_000 ≤ now + release_wait now s)
unfolding release_wait
release_wait_lem now s h = ground arith
