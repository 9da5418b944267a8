-- ===== src/Web/Timers.antt =====
-- The debounced starts and the deferred stops of src/middleware/web/server.ts.

use noaa_satellite_capture.Fft.Stream.{is_fft_stream_running, stop_fft_stream}
use noaa_satellite_capture.Base.{ℕ, Bool, false, not, ◌&&◌, List, [], ◌∷◌, if◌then◌else◌}
use noaa_satellite_capture.AutoGain.{
  set, GainAdjustResult, waiting, in_range, adjusted, limit_reached, feed,
}
use noaa_satellite_capture.Types.{
  SystemState, StateEvent, status_change, pass_start, pass_complete, capture_progress,
  passes_updated, satellite_positions, scanning_frequency, sdr_in_use,
}
use noaa_satellite_capture.Fft.{FftData}
use noaa_satellite_capture.Web.{fft_data, WebServer, Environment, initial_server, stream_frequency}
use noaa_satellite_capture.Web.Stream.{
  debounced_fft_start, broadcast_to_subscribers, push_history, follow_verdict, has_none,
  broadcast_fft_data,
}
use noaa_satellite_capture.Web.Socket.{
  on_connection, on_socket_close, follow_state_event, on_state_event,
}
use noaa_satellite_capture.Web.Inputs.{
  Input, connects, disconnects, says, requests, frames, follows, fires_start, ends_start,
  fires_stop, serve, serve_all,
}
use noaa_satellite_capture.Web.Debounced.{
  IsDebounced, if-IsDebounced, debounced_fft_start-IsDebounced, fire_start-IsDebounced,
  end_start-IsDebounced, fire_stop-IsDebounced, on_message-IsDebounced, handle-IsDebounced,
}

follow_verdict-IsDebounced :
    (r : GainAdjustResult) (s : WebServer) → IsDebounced s → IsDebounced (follow_verdict r s)
unfolding follow_verdict
follow_verdict-IsDebounced waiting s v = v
follow_verdict-IsDebounced (in_range g) s v = record { starts = v.starts; stops = v.stops }
follow_verdict-IsDebounced (limit_reached g) s v = record { starts = v.starts; stops = v.stops }
follow_verdict-IsDebounced (adjusted old g) s v =
    debounced_fft_start-IsDebounced (stream_frequency s.stream.current_config)
      (record s {
        current_gain = g;
        band_gain_store = set s.current_band g false s.band_gain_store;
      })
      (record { starts = v.starts; stops = v.stops })

broadcast_fft_data-IsDebounced :
    (sends : ℕ → Bool) (d : FftData) (s : WebServer)
    → IsDebounced s
    → IsDebounced (broadcast_fft_data sends d s)
unfolding broadcast_fft_data
broadcast_fft_data-IsDebounced sends d s v =
    let (fed, result) = feed d.bins s.auto_gain in
    let pushed : WebServer = record s {
      fft_history_buffer = push_history d s.fft_history_buffer;
    } in
    let next : WebServer = record pushed { auto_gain = fed } in
    let same : IsDebounced pushed = record { starts = v.starts; stops = v.stops } in
    let followed =
      follow_verdict-IsDebounced result next (record { starts = v.starts; stops = v.stops }) in
    let calibrated : WebServer =
      if s.auto_gain.state.enabled then follow_verdict result next else pushed in
    let w : IsDebounced calibrated =
      if-IsDebounced s.auto_gain.state.enabled (follow_verdict result next) pushed followed same in
    if-IsDebounced (has_none s.fft_subscribers) pushed
      (broadcast_to_subscribers sends (fft_data d) calibrated) same
      (unfold broadcast_to_subscribers in record { starts = w.starts; stops = w.stops })

follow_state_event-IsDebounced :
    (now : ℕ) (state : SystemState) (e : StateEvent) (s : WebServer)
    → IsDebounced s
    → IsDebounced (follow_state_event now state e s)
unfolding follow_state_event
follow_state_event-IsDebounced now state (scanning_frequency f n) s v =
    if-IsDebounced (not (has_none s.fft_subscribers) && not (sdr_in_use state.status))
      (debounced_fft_start f s) s (debounced_fft_start-IsDebounced f s v) v
follow_state_event-IsDebounced now state (pass_start p) s v =
    if-IsDebounced (is_fft_stream_running s.stream)
      (record s { stream = stop_fft_stream now s.stream }) s
      (record { starts = v.starts; stops = v.stops }) v
follow_state_event-IsDebounced now state (status_change _) s v = v
follow_state_event-IsDebounced now state (pass_complete _) s v = v
follow_state_event-IsDebounced now state (capture_progress _ _ _) s v = v
follow_state_event-IsDebounced now state (passes_updated _) s v = v
follow_state_event-IsDebounced now state (satellite_positions _) s v = v

on_state_event-IsDebounced :
    (sends : ℕ → Bool) (now : ℕ) (state : SystemState) (e : StateEvent) (s : WebServer)
    → IsDebounced s
    → IsDebounced (on_state_event sends now state e s)
unfolding on_state_event
on_state_event-IsDebounced sends now state e s v =
    let followed = follow_state_event-IsDebounced now state e s v in
    record { starts = followed.starts; stops = followed.stops }

serve-IsDebounced :
    (env : Environment) (now : ℕ) (i : Input) (s : WebServer)
    → IsDebounced s
    → IsDebounced (serve env now i s)
unfolding serve
serve-IsDebounced env now (connects state globe ws) s v =
    unfold on_connection in record { starts = v.starts; stops = v.stops }
serve-IsDebounced env now (disconnects ws) s v =
    unfold on_socket_close in record { starts = v.starts; stops = v.stops }
serve-IsDebounced env now (says state ws m) s v = on_message-IsDebounced state ws m s v
serve-IsDebounced env now (requests p r) s v = handle-IsDebounced now p r s v
serve-IsDebounced env now (frames sends d) s v = broadcast_fft_data-IsDebounced sends d s v
serve-IsDebounced env now (follows sends state e) s v =
    on_state_event-IsDebounced sends now state e s v
serve-IsDebounced env now (fires_start p t) s v = fire_start-IsDebounced env now p t s v
serve-IsDebounced env now (ends_start this_timeout) s v = end_start-IsDebounced this_timeout s v
serve-IsDebounced env now (fires_stop t) s v = fire_stop-IsDebounced now t s v

serve_all-IsDebounced :
    (env : Environment) (inputs : List (ℕ × Input)) (s : WebServer)
    → IsDebounced s
    → IsDebounced (serve_all env inputs s)
unfolding serve_all
serve_all-IsDebounced env [] s v = v
serve_all-IsDebounced env ((now, i) ∷ inputs) s v =
    serve_all-IsDebounced env inputs (serve env now i s) (serve-IsDebounced env now i s v)

-- After any inputs, those included that come while a start that has fired is under way: at most one
-- start and one stop of the stream are armed, and they are the pending ones; and each start that is
-- under way was fired by an older timer that is armed no more.
pub serve_all-initial_server-IsDebounced :
    (env : Environment) (inputs : List (ℕ × Input))
    → IsDebounced (serve_all env inputs (initial_server env))
serve_all-initial_server-IsDebounced env inputs =
    serve_all-IsDebounced env inputs (initial_server env) (
      unfold initial_server in
      record { starts = record { single = tt; young = tt; fired = tt }; stops = tt })
