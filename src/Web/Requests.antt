-- ===== src/Web/Requests.antt =====
-- How the stream follows what the server of src/middleware/web/server.ts is told.
use noaa_satellite_capture.Base.{
  ℕ, suc, ◌≡◌, ◌⊎◌, Bool, true, false, Option, some, List, ◌∷◌, arith,
}
use noaa_satellite_capture.Types.{SatellitePass, SystemState, StateEvent, pass_start, sdr_in_use}
use noaa_satellite_capture.Fft.Stream.{
  FftStream, is_fft_stream_running, stop_fft_stream, start_fft_stream,
}
use noaa_satellite_capture.Fft.Stream.Laws.{stop_fft_stream_lem}
use noaa_satellite_capture.Web.{WebServer, Environment}
use noaa_satellite_capture.Web.Stream.{
  clear_start, debounced_fft_start, prepare_fft_start, run_fft_start, find_start, fire_start,
}
use noaa_satellite_capture.Web.Socket.{
  fft_subscribe, fft_unsubscribe, fft_set_frequency, subscribe_start, on_message, on_state_event,
}

-- While a recording or its decoding holds the SDR, a subscription, its end and an event of the
-- state arm no start of the stream, and none of them starts it.
pub in_use_starts_nothing :
    (sends : ℕ → Bool) (now ws : ℕ) (f : Option ℕ) (state : SystemState) (e : StateEvent)
    (s : WebServer)
    → sdr_in_use state.status ≡ true
    → let subscribed = on_message state ws (fft_subscribe f) s in
      let unsubscribed = on_message state ws fft_unsubscribe s in
      let followed = on_state_event sends now state e s in
      (subscribed.start_timers ≡ s.start_timers)
      × (subscribed.stream ≡ s.stream)
      × (unsubscribed.start_timers ≡ s.start_timers)
      × (unsubscribed.stream ≡ s.stream)
      × (followed.start_timers ≡ s.start_timers)
      × ((followed.stream ≡ s.stream) ⊎ (is_fft_stream_running followed.stream ≡ false))
unfolding on_message on_state_event subscribe_start
in_use_starts_nothing sends now ws f state e s h =
    let stopped = (stop_fft_stream_lem now s.stream).0 in ground arith

pub find_armed : (t f : ℕ) (ts : List (ℕ × ℕ)) → find_start t ((t, f) ∷ ts) ≡ some f
find_armed t f ts = ground arith

-- A start that fires on a stream that neither runs nor starts leaves it running.
fire_start_runs :
    (env : Environment) (now pid t f : ℕ) (s : WebServer)
    → find_start t s.start_timers ≡ some f
    → s.stream.is_starting ≡ false
    → s.stream.is_running ≡ false
    → is_fft_stream_running (fire_start env now (some pid) t s).stream ≡ true
unfolding fire_start run_fft_start prepare_fft_start start_fft_stream is_fft_stream_running
fire_start_runs env now pid t f s e h k = ground arith

stop_fft_stream_flags :
    (now : ℕ) (s : FftStream)
    → ((stop_fft_stream now s).is_running ≡ false)
      × ((stop_fft_stream now s).is_starting ≡ s.is_starting)
unfolding stop_fft_stream
stop_fft_stream_flags now s = ground arith

-- A recording does not keep the stream off: a start that was armed before the pass began still
-- fires, and so does one that a client's change of frequency arms during the pass. Each takes the
-- SDR, where no other start is under way and rtl_sdr can be spawned.
capture_conflicts :
    (env : Environment) (sends : ℕ → Bool) (now later pid ws t f g : ℕ) (state : SystemState)
    (pass : SatellitePass) (s : WebServer)
    → s.stream.is_starting ≡ false
    → is_fft_stream_running s.stream ≡ true
    → find_start t s.start_timers ≡ some f
    → let begun = on_state_event sends now state (pass_start pass) s in
      let tuned = on_message state ws (fft_set_frequency (some (suc g))) begun in
      (is_fft_stream_running begun.stream ≡ false)
      × (is_fft_stream_running (fire_start env later (some pid) t begun).stream ≡ true)
      × (is_fft_stream_running (fire_start env later (some pid) s.next_timer tuned).stream ≡ true)
unfolding on_state_event on_message debounced_fft_start
capture_conflicts env sends now later pid ws t f g state pass s h r e =
    let begun = on_state_event sends now state (pass_start pass) s in
    let tuned = on_message state ws (fft_set_frequency (some (suc g))) begun in
    let flags = stop_fft_stream_flags now s.stream in
    let stopped = (stop_fft_stream_lem now s.stream).0 in
    let same : begun.stream ≡ stop_fft_stream now s.stream = ground arith in
    let armed =
      find_armed s.next_timer (suc g) (clear_start begun.pending_fft_start begun.start_timers) in
    let kept : find_start t begun.start_timers ≡ some f = ground arith in
    let late : find_start s.next_timer tuned.start_timers ≡ some (suc g) = ground arith in
    let starting : begun.stream.is_starting ≡ false = ground arith in
    let running : begun.stream.is_running ≡ false = ground arith in
    (
      ground arith,
      fire_start_runs env later pid t f begun kept starting running,
      fire_start_runs env later pid s.next_timer (suc g) tuned late starting running,
    )
