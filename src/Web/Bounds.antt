-- ===== src/Web/Bounds.antt =====
-- What stays true of the server of src/middleware/web/server.ts whatever it is sent.
pub mod Kept
mod Effects
use noaa_satellite_capture.Web.Stream.{end_start}
use noaa_satellite_capture.Base.{
  ℕ, zero, suc, inl, inr, Bool, Option, none, some, List, [], ◌∷◌, arith, Bool-cases, Option-cases,
  pos, ◌≤ℤ◌,
}
use noaa_satellite_capture.Types.{SystemState, StateEvent}
use noaa_satellite_capture.Web.{WebServer, Environment, initial_server}
use noaa_satellite_capture.Web.Socket.{
  ClientMessage, fft_subscribe, fft_unsubscribe, fft_set_frequency, fft_set_gain, other_message,
  on_connection, on_socket_close, fire_stop, is_gain, on_message, on_state_event,
}
use noaa_satellite_capture.Web.Inputs.{
  Input, connects, disconnects, says, requests, frames, follows, fires_start, ends_start,
  fires_stop, serve, serve_all,
}
use noaa_satellite_capture.Web.Http.{
  Request, asks_fft_status, starts_fft, sets_gain, stops_fft, asks_notches, adds_notch,
  removes_notch, toggles_notch, clears_notches, is_automatic, handle,
}
use noaa_satellite_capture.Web.Bounds.Kept.{InRange, HasGains, IsBounded, clear-HasGains}
use noaa_satellite_capture.Web.Bounds.Effects.{
  debounced_fft_start-IsBounded, fire_start-IsBounded, broadcast_fft_data-IsBounded,
  change_gain-IsBounded,
}

on_message-IsBounded :
    (state : SystemState) (ws : ℕ) (m : ClientMessage) (s : WebServer)
    → IsBounded s
    → IsBounded (on_message state ws m s)
unfolding on_message
on_message-IsBounded state ws (fft_subscribe f) s v = ground arith
on_message-IsBounded state ws fft_unsubscribe s v = ground arith
on_message-IsBounded state ws (fft_set_frequency none) s v = v
on_message-IsBounded state ws (fft_set_frequency (some zero)) s v = v
on_message-IsBounded state ws (fft_set_frequency (some (suc f))) s v =
    debounced_fft_start-IsBounded (suc f) s v
on_message-IsBounded state ws (fft_set_gain none) s v = v
on_message-IsBounded state ws (fft_set_gain (some g)) s v = elim (Bool-cases (is_gain g)) [
  | inl good ↦
      let changed = change_gain-IsBounded g s good v in rw (good, on_message) (ground arith)
  | inr bad ↦ rw (bad, on_message) v
]
on_message-IsBounded state ws other_message s v = v

handle-IsBounded :
    (now : ℕ) (p : Option ℕ) (r : Request) (s : WebServer)
    → IsBounded s
    → IsBounded (handle now p r s).0
unfolding handle
handle-IsBounded now p asks_fft_status s v = v
handle-IsBounded now p (starts_fft none) s v = v
handle-IsBounded now p (starts_fft (some b)) s v = ground arith
handle-IsBounded now p (sets_gain none) s v = v
handle-IsBounded now p (sets_gain (some b)) s v = elim (Bool-cases (is_automatic b.automatic)) [
  | inl automatic ↦
      let cleared = clear-HasGains s.current_band s.band_gain_store v.stored in ground arith
  | inr given ↦ elim (Option-cases b.gain) [
    | inl nothing ↦ ground arith
    | inr (g, found) ↦ elim (Bool-cases (is_gain g)) [
      | inl good ↦ let changed = change_gain-IsBounded g s good v in ground arith
      | inr bad ↦ ground arith
    ]
  ]
]
handle-IsBounded now p stops_fft s v = ground arith
handle-IsBounded now p asks_notches s v = v
handle-IsBounded now p (adds_notch none) s v = v
handle-IsBounded now p (adds_notch (some b)) s v = ground arith
handle-IsBounded now p (removes_notch none) s v = v
handle-IsBounded now p (removes_notch (some b)) s v = ground arith
handle-IsBounded now p (toggles_notch none) s v = v
handle-IsBounded now p (toggles_notch (some b)) s v = ground arith
handle-IsBounded now p clears_notches s v = ground arith

on_state_event-IsBounded :
    (sends : ℕ → Bool) (now : ℕ) (state : SystemState) (e : StateEvent) (s : WebServer)
    → IsBounded s
    → IsBounded (on_state_event sends now state e s)
unfolding on_state_event
on_state_event-IsBounded sends now state e s v = ground arith

serve-IsBounded :
    (env : Environment) (now : ℕ) (i : Input) (s : WebServer)
    → InRange env.default_gain
    → IsBounded s
    → IsBounded (serve env now i s)
unfolding serve
serve-IsBounded env now (connects state globe ws) s h v = unfold on_connection in ground arith
serve-IsBounded env now (disconnects ws) s h v = unfold on_socket_close in ground arith
serve-IsBounded env now (says state ws m) s h v = on_message-IsBounded state ws m s v
serve-IsBounded env now (requests p r) s h v = handle-IsBounded now p r s v
serve-IsBounded env now (frames sends d) s h v = broadcast_fft_data-IsBounded sends d s v
serve-IsBounded env now (follows sends state e) s h v =
    on_state_event-IsBounded sends now state e s v
serve-IsBounded env now (fires_start p t) s h v = fire_start-IsBounded env now p t s h v
serve-IsBounded env now (ends_start this_timeout) s h v = unfold end_start in ground arith
serve-IsBounded env now (fires_stop t) s h v = unfold fire_stop in ground arith

serve_all-IsBounded :
    (env : Environment) (inputs : List (ℕ × Input)) (s : WebServer)
    → InRange env.default_gain
    → IsBounded s
    → IsBounded (serve_all env inputs s)
unfolding serve_all
serve_all-IsBounded env [] s h v = v
serve_all-IsBounded env ((now, i) ∷ inputs) s h v =
    serve_all-IsBounded env inputs (serve env now i s) h (serve-IsBounded env now i s h v)

-- With a default gain from 0 to 49 dB, after any inputs whose fields are of the types that the code
-- casts them to, or missing, the server keeps at most 150 frames, the
-- gain and the stored gains of all bands are from 0 to 49 dB, and so is the calibration's, which
-- never holds as many samples as it waits for.
pub serve_all-initial_server-IsBounded :
    (env : Environment) (inputs : List (ℕ × Input))
    → pos 0 ≤ℤ env.default_gain
    → env.default_gain ≤ℤ pos 49_000
    → IsBounded (serve_all env inputs (initial_server env))
serve_all-initial_server-IsBounded env inputs h k =
    serve_all-IsBounded env inputs (initial_server env) (h, k)
      (unfold initial_server in unfold HasGains in ground arith)
