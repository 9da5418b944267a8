-- ===== src/Web/Socket.antt =====
-- src/middleware/web/server.ts: the handlers of the dashboard's sockets and of the state's events.
-- `send` to the socket that a message came from is taken to succeed.

use noaa_satellite_capture.Base.{
  ℕ, zero, suc, ◌+◌, Bool, true, not, ◌&&◌, Option, none, some, List, [], ◌∷◌, ◌++◌, map, ◌==◌,
  if◌then◌else◌, filter, find, ℤ, pos, leb_ℤ,
}
use noaa_satellite_capture.Types.{
  GlobeState, SystemState, StateEvent, status_change, pass_start, pass_complete, capture_progress,
  passes_updated, satellite_positions, scanning_frequency, is_scanning, sdr_in_use,
}
use noaa_satellite_capture.AutoGain.{set, set_gain}
use noaa_satellite_capture.Fft.Stream.{is_fft_stream_running, stop_fft_stream}
use noaa_satellite_capture.Web.{
  Message, welcomes, fft_history, fft_subscribed, fft_unsubscribed, gain_updated, state_event,
  WebServer, or_frequency, stream_frequency, send,
}
use noaa_satellite_capture.Web.Stream.{clear_stop, debounced_fft_start, has_none}

-- A parsed message, by its `type`; a field that is missing is `none`, and is otherwise of the type
-- that the code casts it to. A message whose gain is null, which passes the test of the gain, is left
-- out.
pub data ClientMessage : Type 0 where
  fft_subscribe : Option ℕ → ClientMessage
  fft_unsubscribe : ClientMessage
  fft_set_frequency : Option ℕ → ClientMessage
  fft_set_gain : Option ℤ → ClientMessage
  other_message : ClientMessage

-- `Set.add` and `Set.delete`.
unfoldable pub add : ℕ → List ℕ → List ℕ
add x [] = x ∷ []
add x (y ∷ ys) = if x == y then y ∷ ys else y ∷ add x ys

unfoldable pub delete : ℕ → List ℕ → List ℕ
delete x ys = filter (λ (y : ℕ). not (y == x)) ys

unfoldable pub on_connection : SystemState → Option GlobeState → ℕ → WebServer → WebServer
unfolding add is_fft_stream_running
on_connection state globe ws s =
    let s = record s { clients = add ws s.clients } in
    send ws
      (welcomes state globe (is_fft_stream_running s.stream) s.stream.current_config s.notch_filters
        s.stream.last_error)
      s

unfoldable pub on_socket_close : ℕ → WebServer → WebServer
unfolding delete
on_socket_close ws s = record s {
  clients = delete ws s.clients;
  fft_subscribers = delete ws s.fft_subscribers;
}

-- `state.status === 'scanning' && state.scanningFrequency ? … : data.frequency || 137_500_000`.
abbrev or_requested : Option ℕ → Option ℕ → ℕ
or_requested none requested = or_frequency requested 137_500_000
or_requested (some zero) requested = or_frequency requested 137_500_000
or_requested (some (suc f)) requested = suc f

unfoldable pub start_frequency : SystemState → Option ℕ → ℕ
start_frequency state requested =
    if is_scanning state.status
    then or_requested state.scanning_frequency requested
    else or_frequency requested 137_500_000

-- The end of the subscription: the stream may be started, and the socket is answered.
unfoldable pub subscribe_start : SystemState → Option ℕ → WebServer → WebServer
unfolding debounced_fft_start start_frequency
subscribe_start state requested s =
    if is_fft_stream_running s.stream
    then s
    else if sdr_in_use state.status
    then s
    else debounced_fft_start (start_frequency state requested) s

abbrev pub send_history : ℕ → WebServer → WebServer
send_history ws s = elim s.fft_history_buffer [ [] ↦ s | d ∷ ds ↦ send ws (fft_history (d ∷ ds)) s ]

unfoldable pub on_subscribe : SystemState → ℕ → Option ℕ → WebServer → WebServer
unfolding subscribe_start add
on_subscribe state ws requested s =
    let added = record s {
      fft_subscribers = add ws s.fft_subscribers;
      stop_timers = clear_stop s.pending_fft_stop s.stop_timers;
      pending_fft_stop = none;
    } in
    let started = subscribe_start state requested (send_history ws added) in
    let t = started.stream in
    send ws (fft_subscribed (is_fft_stream_running t) t.current_config t.last_error) started

unfoldable pub on_unsubscribe : ℕ → WebServer → WebServer
unfolding delete
on_unsubscribe ws s = send ws fft_unsubscribed (record s {
  fft_subscribers = delete ws s.fft_subscribers;
  stop_timers = s.next_timer ∷ clear_stop s.pending_fft_stop s.stop_timers;
  pending_fft_stop = some s.next_timer;
  next_timer = s.next_timer + 1;
})

-- The timer `t` of a deferred stop fires, if it is armed.
unfoldable pub fire_stop : ℕ → ℕ → WebServer → WebServer
unfolding delete
fire_stop now t s =
    let fired = record s { pending_fft_stop = none; stop_timers = delete t s.stop_timers } in
    elim (find (λ (u : ℕ). u == t) s.stop_timers) [
      | none ↦ s
      | some u ↦
          if has_none fired.fft_subscribers && is_fft_stream_running fired.stream
          then record fired { stream = stop_fft_stream now fired.stream }
          else fired
    ]

unfoldable pub on_set_frequency : Option ℕ → WebServer → WebServer
on_set_frequency none s = s
on_set_frequency (some zero) s = s
on_set_frequency (some (suc f)) s = debounced_fft_start (suc f) s

-- `gain !== undefined && gain >= 0 && gain <= 49`.
unfoldable pub is_gain : ℤ → Bool
is_gain gain = leb_ℤ (pos 0) gain && leb_ℤ gain (pos 49_000)

-- The gain is set by hand; this is the same code for a socket's message and for a request.
unfoldable pub change_gain : ℤ → WebServer → WebServer
unfolding set_gain debounced_fft_start
change_gain gain s =
    let changed = record s {
      current_gain = gain;
      auto_gain = set_gain gain s.auto_gain;
      band_gain_store = set s.current_band gain true s.band_gain_store;
    } in
    if is_fft_stream_running s.stream
    then debounced_fft_start (stream_frequency s.stream.current_config) changed
    else changed

unfoldable pub on_set_gain : ℕ → Option ℤ → WebServer → WebServer
unfolding change_gain
on_set_gain ws none s = s
on_set_gain ws (some gain) s =
    if is_gain gain then send ws (gain_updated gain) (change_gain gain s) else s

-- A message of the socket `ws`.
unfoldable pub on_message : SystemState → ℕ → ClientMessage → WebServer → WebServer
unfolding on_subscribe on_unsubscribe on_set_frequency on_set_gain
on_message state ws (fft_subscribe requested) s = on_subscribe state ws requested s
on_message state ws fft_unsubscribe s = on_unsubscribe ws s
on_message state ws (fft_set_frequency frequency) s = on_set_frequency frequency s
on_message state ws (fft_set_gain gain) s = on_set_gain ws gain s
on_message state ws other_message s = s

-- The loop that sends to each client and forgets those whose `send` throws.
unfoldable pub broadcast_to_clients : (ℕ → Bool) → Message → WebServer → WebServer
broadcast_to_clients sends message s =
    let reached = filter sends s.clients in
    record s { sent = map (λ (ws : ℕ). (ws, message)) reached ++ s.sent; clients = reached }

-- The stream's part of the handler of the state's events; `state` is the state at the event.
unfoldable pub follow_state_event : ℕ → SystemState → StateEvent → WebServer → WebServer
unfolding debounced_fft_start
follow_state_event now state (scanning_frequency frequency name) s =
    if not (has_none s.fft_subscribers) && not (sdr_in_use state.status)
    then debounced_fft_start frequency s
    else s
follow_state_event now state (pass_start pass) s =
    if is_fft_stream_running s.stream then record s { stream = stop_fft_stream now s.stream } else s
follow_state_event now state (status_change _) s = s
follow_state_event now state (pass_complete _) s = s
follow_state_event now state (capture_progress _ _ _) s = s
follow_state_event now state (passes_updated _) s = s
follow_state_event now state (satellite_positions _) s = s

unfoldable pub on_state_event : (ℕ → Bool) → ℕ → SystemState → StateEvent → WebServer → WebServer
unfolding follow_state_event broadcast_to_clients
on_state_event sends now state event s =
    broadcast_to_clients sends (state_event event) (follow_state_event now state event s)
