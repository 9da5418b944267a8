-- ===== src/Dashboard/Reconnect.antt =====
-- The reconnection of src/frontend/src/hooks/useWebSocket.ts.
use noaa_satellite_capture.Types.{
  idle, StateEvent, status_change, pass_start, pass_complete, capture_progress, passes_updated,
  satellite_positions, scanning_frequency,
}
use noaa_satellite_capture.Base.{
  ℕ, zero, suc, ◌+◌, ◌-◌, ◌≤◌, ◌≡◌, refl, sym, subst, inl, inr, none, some, List, [], ◌∷◌, arith,
  ltb, min_of, Bool-cases, Option-cases, length, head?, All,
}
use noaa_satellite_capture.Web.{
  Message, welcomes, fft_history, fft_subscribed, fft_unsubscribed, gain_updated, fft_data,
  fft_error, state_event,
}
use noaa_satellite_capture.Dashboard.{
  from_server, recording, ClientState, WsState, Dashboard, initial_dashboard, update_state,
  on_state_event, on_message, on_open, max_reconnect_attempts, on_close, on_error,
}

pub data SocketEvent : Type 0 where
  opens : SocketEvent
  closes : SocketEvent
  fails : SocketEvent
  receives : Message → SocketEvent

-- An event of the socket, or a timer that fires.
unfoldable pub handle : SocketEvent → Dashboard → Dashboard
unfolding on_open on_close on_error
handle opens d = on_open d
handle closes d = on_close d
handle fails d = on_error d
handle (receives m) d = on_message m d

unfoldable pub handle_all : List SocketEvent → Dashboard → Dashboard
unfolding handle
handle_all [] d = d
handle_all (e ∷ es) d = handle_all es (handle e d)

-- What the reconnection is about.
abbrev Link : Type 0
Link = ℕ × WsState × List ℕ

abbrev link : Dashboard → Link
link d = (d.reconnect_attempts, d.ws_state, d.timers)

update_state-link :
    (f : ClientState → ClientState) (d : Dashboard) → link (update_state f d) ≡ link d
update_state-link f d = elim (Option-cases d.system_state) [
  | inl e ↦ rw e refl
  | inr (s, e) ↦ rw e refl
]

on_state_event-link : (e : StateEvent) (d : Dashboard) → link (on_state_event e d) ≡ link d
unfolding on_state_event
on_state_event-link (status_change s) d =
    update_state-link (λ z. record z { status = from_server s }) d
on_state_event-link (capture_progress p e t) d = refl
on_state_event-link (pass_start p) d =
    update_state-link (λ z. record z { current_pass = some p; status = recording }) d
on_state_event-link (pass_complete r) d =
    update_state-link (λ z. record z { current_pass = none; status = from_server idle }) d
on_state_event-link (passes_updated ps) d =
    update_state-link (λ z. record z { upcoming_passes = ps; next_pass = head? ps })
      (record d { passes = ps })
on_state_event-link (satellite_positions g) d = refl
on_state_event-link (scanning_frequency f n) d =
    update_state-link
      (λ z. record z { scanning_frequency = some f; scanning_frequency_name = some n }) d

on_message-link : (m : Message) (d : Dashboard) → link (on_message m d) ≡ link d
unfolding on_message
on_message-link (welcomes a b c e f g) d = refl
on_message-link (fft_history fs) d = refl
on_message-link (fft_subscribed a b c) d = refl
on_message-link fft_unsubscribed d = refl
on_message-link (gain_updated g) d = refl
on_message-link (fft_data f) d = refl
on_message-link (fft_error e) d = refl
on_message-link (state_event e) d = on_state_event-link e d

-- The counter is the one that is shown, unless it is used up, and the delays lie between one and ten
-- seconds.
abbrev Bounded : Link → Type 0
Bounded (attempts, shown, timers) =
    (attempts ≤ max_reconnect_attempts)
    × (shown.reconnect_attempts ≡ attempts)
    × All (λ (t : ℕ). (1000 ≤ t) × (t ≤ 10_000)) timers

unfoldable pub IsBounded : Dashboard → Type 0
IsBounded d = Bounded (link d)

handle-IsBounded : (e : SocketEvent) (d : Dashboard) → IsBounded d → IsBounded (handle e d)
unfolding handle on_open on_error IsBounded
handle-IsBounded opens d (a, s, t) = (omega arith, refl, t)
handle-IsBounded closes d (a, s, t) = elim (Bool-cases (ltb d.reconnect_attempts 20)) [
  | inl more ↦ rw (more, on_close) (ground arith, refl, ((ground arith, ground arith), t))
  | inr over ↦ rw (over, on_close) (a, s, t)
]
handle-IsBounded fails d h = h
handle-IsBounded (receives m) d h = subst Bounded (sym (on_message-link m d)) h

pub handle_all-IsBounded :
    (es : List SocketEvent) (d : Dashboard) → IsBounded d → IsBounded (handle_all es d)
unfolding handle_all
handle_all-IsBounded [] d h = h
handle_all-IsBounded (e ∷ es) d h = handle_all-IsBounded es (handle e d) (handle-IsBounded e d h)

abbrev pub closes_times : ℕ → List SocketEvent
closes_times zero = []
closes_times (suc n) = closes ∷ closes_times n

closed_attempts :
    (n : ℕ) (d : Dashboard)
    → d.reconnect_attempts ≤ max_reconnect_attempts
    → length (handle_all (closes_times n) d).timers
      ≡ length d.timers + min_of n (max_reconnect_attempts - d.reconnect_attempts)
unfolding handle_all handle
closed_attempts zero d h = ground arith
closed_attempts (suc n) d h = elim (Bool-cases (ltb d.reconnect_attempts 20)) [
  | inl more ↦
      let used : (on_close d).reconnect_attempts ≡ d.reconnect_attempts + 1 =
        rw (more, on_close) refl in
      let armed : length (on_close d).timers ≡ suc (length d.timers) = rw (more, on_close) refl in
      let rest = closed_attempts n (on_close d) (ground arith) in ground (arith, rest, armed, used)
  | inr over ↦
      let used : (on_close d).reconnect_attempts ≡ d.reconnect_attempts =
        rw (over, on_close) refl in
      let armed : length (on_close d).timers ≡ length d.timers = rw (over, on_close) refl in
      let rest = closed_attempts n (on_close d) (ground arith) in ground (arith, rest, armed, used)
]

-- From the start, after any events of the socket, the counter of attempts is the one shown and at
-- most 20, and every delay of a reconnection lies between one and ten seconds. When the connection
-- then opens and closes `n` times without opening again, `n` reconnections are tried, but at most 20.
pub handle_all-reconnects :
    (es : List SocketEvent) (n : ℕ)
    → let d = handle_all es initial_dashboard in
      IsBounded d
      × (length (handle_all (closes_times n) (on_open d)).timers ≡ length d.timers + min_of n 20)
handle_all-reconnects es n =
    let d = handle_all es initial_dashboard in
    (
      handle_all-IsBounded es initial_dashboard (unfold IsBounded in (omega arith, refl, tt)),
      unfold on_open in closed_attempts n (on_open d) (omega arith),
    )
