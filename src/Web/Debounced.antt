-- ===== src/Web/Debounced.antt =====
-- At most one start and one stop are armed: the timers, messages and requests of
-- src/middleware/web/server.ts.
use noaa_satellite_capture.Fft.Stream.{is_fft_stream_running, stop_fft_stream}
use noaa_satellite_capture.Base.{
  ℕ, zero, suc, ◌≡◌, refl, inl, inr, Bool, true, false, ◌&&◌, Option, none, some, List, [], ◌∷◌,
  arith, ◌==◌, if◌then◌else◌, Bool-cases, Option-cases, find, ℤ,
}
use noaa_satellite_capture.AutoGain.{set, set_gain}
use noaa_satellite_capture.Types.{SystemState, sdr_in_use}
use noaa_satellite_capture.Web.{
  fft_history, gain_updated, WebServer, Environment, stream_frequency, send,
}
use noaa_satellite_capture.Web.Stream.{
  clear_stop, debounced_fft_start, prepare_fft_start, run_fft_start, find_start, fire_start,
  is_under_way, end_start, has_none,
}
use noaa_satellite_capture.Web.Socket.{
  ClientMessage, fft_subscribe, fft_unsubscribe, fft_set_frequency, fft_set_gain, other_message,
  add, delete, start_frequency, subscribe_start, send_history, on_subscribe, on_unsubscribe,
  fire_stop, is_gain, change_gain, on_message,
}
use noaa_satellite_capture.Web.Http.{
  GainBody, NotchBody, Request, asks_fft_status, starts_fft, sets_gain, stops_fft, asks_notches,
  adds_notch, removes_notch, toggles_notch, clears_notches, is_automatic, handle_gain,
  handle_add_notch, handle_remove_notch, handle_toggle_notch, handle,
}
use noaa_satellite_capture.Web.Guard.{
  IsGuarded, arm-IsGuarded, later-IsGuarded, fire-IsGuarded, end-IsGuarded,
}

abbrev pub IsSingleStop : Option ℕ → List ℕ → Type 0
IsSingleStop pending [] = Unit
IsSingleStop pending (t ∷ []) = pending ≡ some t
IsSingleStop pending (t ∷ u ∷ timers) = ⊥

pub record IsDebounced (s : WebServer) : Type 0 where
  pub starts : IsGuarded s.pending_fft_start s.start_timers s.next_timer s.starts_under_way
  pub stops : IsSingleStop s.pending_fft_stop s.stop_timers

clear_stop_all : (p : Option ℕ) (ts : List ℕ) → IsSingleStop p ts → clear_stop p ts ≡ []
clear_stop_all none [] h = refl
clear_stop_all (some t) [] h = refl
clear_stop_all p (t ∷ []) h = rw h (ground arith)
clear_stop_all p (t ∷ u ∷ ts) h = absurd h

pub if-IsDebounced :
    (b : Bool) (x y : WebServer) → IsDebounced x → IsDebounced y → IsDebounced (if b then x else y)
if-IsDebounced true x y v w = v
if-IsDebounced false x y v w = w

pub debounced_fft_start-IsDebounced :
    (f : ℕ) (s : WebServer) → IsDebounced s → IsDebounced (debounced_fft_start f s)
unfolding debounced_fft_start
debounced_fft_start-IsDebounced f s v = record {
  starts =
      arm-IsGuarded s.pending_fft_start s.start_timers s.next_timer f s.starts_under_way v.starts;
  stops = v.stops;
}

stopped_all :
    (p : Option ℕ) (t u : ℕ) (ts : List ℕ)
    → IsSingleStop p ts
    → find (λ (u : ℕ). u == t) ts ≡ some u
    → delete t ts ≡ []
unfolding delete
stopped_all p t u [] h e = absurd (cc e)
stopped_all p t u (x ∷ []) h e = ground arith
stopped_all p t u (x ∷ y ∷ ts) h e = absurd h

pub fire_start-IsDebounced :
    (env : Environment) (now : ℕ) (p : Option ℕ) (t : ℕ) (s : WebServer)
    → IsDebounced s
    → IsDebounced (fire_start env now p t s)
unfolding fire_start run_fft_start prepare_fft_start
fire_start-IsDebounced env now p t s v = elim (Option-cases (find_start t s.start_timers)) [
  | inl nothing ↦ rw (nothing, fire_start) v
  | inr (f, found) ↦
      let guarded =
        fire-IsGuarded s.pending_fft_start t f s.start_timers s.next_timer s.starts_under_way
          v.starts found in
      rw (found, fire_start, run_fft_start, prepare_fft_start)
        (record { starts = guarded; stops = v.stops })
]

pub end_start-IsDebounced :
    (x : Option ℕ) (s : WebServer) → IsDebounced s → IsDebounced (end_start x s)
unfolding end_start
end_start-IsDebounced x s v = elim (Bool-cases (is_under_way x s.starts_under_way)) [
  | inl under_way ↦
      rw (under_way, end_start)
        (record {
          starts =
              end-IsGuarded s.pending_fft_start s.start_timers s.next_timer x s.starts_under_way
                v.starts under_way;
          stops = v.stops;
        })
  | inr gone ↦ rw (gone, end_start) v
]

pub fire_stop-IsDebounced :
    (now t : ℕ) (s : WebServer) → IsDebounced s → IsDebounced (fire_stop now t s)
unfolding fire_stop
fire_stop-IsDebounced now t s v = elim (Option-cases (find (λ (u : ℕ). u == t) s.stop_timers)) [
  | inl nothing ↦ rw (nothing, fire_stop) v
  | inr (u, found) ↦
      let gone = stopped_all s.pending_fft_stop t u s.stop_timers v.stops found in
      let fired : WebServer = record s {
        pending_fft_stop = none;
        stop_timers = delete t s.stop_timers;
      } in
      let w : IsDebounced fired = record { starts = v.starts; stops = rw gone tt } in
      let stopped : WebServer = record fired { stream = stop_fft_stream now fired.stream } in
      rw (found, fire_stop)
        (if-IsDebounced (has_none fired.fft_subscribers && is_fft_stream_running fired.stream)
          stopped fired (record { starts = w.starts; stops = w.stops }) w)
]

change_gain-IsDebounced : (g : ℤ) (s : WebServer) → IsDebounced s → IsDebounced (change_gain g s)
unfolding change_gain
change_gain-IsDebounced g s v =
    let changed : WebServer = record s {
      current_gain = g;
      auto_gain = set_gain g s.auto_gain;
      band_gain_store = set s.current_band g true s.band_gain_store;
    } in
    let same : IsDebounced changed = record { starts = v.starts; stops = v.stops } in
    let f = stream_frequency s.stream.current_config in
    if-IsDebounced (is_fft_stream_running s.stream) (debounced_fft_start f changed) changed
      (debounced_fft_start-IsDebounced f changed same) same

subscribe_start-IsDebounced :
    (state : SystemState) (f : Option ℕ) (s : WebServer)
    → IsDebounced s
    → IsDebounced (subscribe_start state f s)
unfolding subscribe_start
subscribe_start-IsDebounced state f s v =
    let armed = debounced_fft_start (start_frequency state f) s in
    if-IsDebounced (is_fft_stream_running s.stream) s (if sdr_in_use state.status then s else armed)
      v
      (if-IsDebounced (sdr_in_use state.status) s armed v
        (debounced_fft_start-IsDebounced (start_frequency state f) s v))

send_history-IsDebounced :
    (ws : ℕ) (s : WebServer) → IsDebounced s → IsDebounced (send_history ws s)
send_history-IsDebounced ws s v =
    elim s.fft_history_buffer
      as (λ l. IsDebounced (elim l [ [] ↦ s | d ∷ ds ↦ send ws (fft_history (d ∷ ds)) s ])) [
        | [] ↦ v
        | d ∷ ds ↦ record { starts = v.starts; stops = v.stops }
      ]

on_subscribe-IsDebounced :
    (state : SystemState) (ws : ℕ) (f : Option ℕ) (s : WebServer)
    → IsDebounced s
    → IsDebounced (on_subscribe state ws f s)
unfolding on_subscribe
on_subscribe-IsDebounced state ws f s v =
    let added : WebServer = record s {
      fft_subscribers = add ws s.fft_subscribers;
      stop_timers = clear_stop s.pending_fft_stop s.stop_timers;
      pending_fft_stop = none;
    } in
    let cleared : IsDebounced added = record {
      starts = v.starts;
      stops = rw (clear_stop_all s.pending_fft_stop s.stop_timers v.stops) tt;
    } in
    let shown = send_history-IsDebounced ws added cleared in
    let started = subscribe_start-IsDebounced state f (send_history ws added) shown in
    record { starts = started.starts; stops = started.stops }

on_unsubscribe-IsDebounced :
    (ws : ℕ) (s : WebServer) → IsDebounced s → IsDebounced (on_unsubscribe ws s)
unfolding on_unsubscribe
on_unsubscribe-IsDebounced ws s v = record {
  starts =
      later-IsGuarded s.pending_fft_start s.start_timers s.next_timer s.starts_under_way v.starts;
  stops = rw (clear_stop_all s.pending_fft_stop s.stop_timers v.stops) refl;
}

pub on_message-IsDebounced :
    (state : SystemState) (ws : ℕ) (m : ClientMessage) (s : WebServer)
    → IsDebounced s
    → IsDebounced (on_message state ws m s)
unfolding on_message
on_message-IsDebounced state ws (fft_subscribe f) s v = on_subscribe-IsDebounced state ws f s v
on_message-IsDebounced state ws fft_unsubscribe s v = on_unsubscribe-IsDebounced ws s v
on_message-IsDebounced state ws (fft_set_frequency none) s v = v
on_message-IsDebounced state ws (fft_set_frequency (some zero)) s v = v
on_message-IsDebounced state ws (fft_set_frequency (some (suc f))) s v =
    debounced_fft_start-IsDebounced (suc f) s v
on_message-IsDebounced state ws (fft_set_gain none) s v = v
on_message-IsDebounced state ws (fft_set_gain (some g)) s v =
    let changed = change_gain-IsDebounced g s v in
    if-IsDebounced (is_gain g) (send ws (gain_updated g) (change_gain g s)) s
      (record { starts = changed.starts; stops = changed.stops }) v
on_message-IsDebounced state ws other_message s v = v

handle_gain-IsDebounced :
    (b : GainBody) (s : WebServer) → IsDebounced s → IsDebounced (handle_gain (some b) s).0
unfolding handle_gain
handle_gain-IsDebounced b s v = elim (Bool-cases (is_automatic b.automatic)) [
  | inl automatic ↦ rw (automatic, handle_gain) (record { starts = v.starts; stops = v.stops })
  | inr given ↦ elim (Option-cases b.gain) [
    | inl nothing ↦ rw (given, nothing, handle_gain) v
    | inr (g, found) ↦ elim (Bool-cases (is_gain g)) [
      | inl good ↦ rw (given, found, good, handle_gain) (change_gain-IsDebounced g s v)
      | inr bad ↦ rw (given, found, bad, handle_gain) v
    ]
  ]
]

-- The requests on the filters leave the timers alone.
abbrev HasTimersOf : WebServer → WebServer → Type 0
HasTimersOf s t =
    (t.pending_fft_start ≡ s.pending_fft_start)
    × (t.start_timers ≡ s.start_timers)
    × (t.next_timer ≡ s.next_timer)
    × (t.starts_under_way ≡ s.starts_under_way)
    × (t.pending_fft_stop ≡ s.pending_fft_stop)
    × (t.stop_timers ≡ s.stop_timers)

HasTimersOf-IsDebounced : (s t : WebServer) → HasTimersOf s t → IsDebounced s → IsDebounced t
HasTimersOf-IsDebounced s t (a, b, c, d, e, f) v = record {
  starts = rw (a, b, c, d) v.starts;
  stops = rw (e, f) v.stops;
}

handle_notch-HasTimersOf :
    (b : NotchBody) (s : WebServer)
    → HasTimersOf s (handle_add_notch (some b) s).0
      × HasTimersOf s (handle_remove_notch (some b) s).0
      × HasTimersOf s (handle_toggle_notch (some b) s).0
unfolding handle_add_notch handle_remove_notch handle_toggle_notch
handle_notch-HasTimersOf b s = (ground arith, ground arith, ground arith)

pub handle-IsDebounced :
    (now : ℕ) (p : Option ℕ) (r : Request) (s : WebServer)
    → IsDebounced s
    → IsDebounced (handle now p r s).0
unfolding handle handle_gain handle_add_notch handle_remove_notch handle_toggle_notch
handle-IsDebounced now p asks_fft_status s v = v
handle-IsDebounced now p (starts_fft none) s v = v
handle-IsDebounced now p (starts_fft (some b)) s v = record { starts = v.starts; stops = v.stops }
handle-IsDebounced now p (sets_gain none) s v = v
handle-IsDebounced now p (sets_gain (some b)) s v = handle_gain-IsDebounced b s v
handle-IsDebounced now p stops_fft s v = record { starts = v.starts; stops = v.stops }
handle-IsDebounced now p asks_notches s v = v
handle-IsDebounced now p (adds_notch none) s v = v
handle-IsDebounced now p (adds_notch (some b)) s v =
    HasTimersOf-IsDebounced s _ (handle_notch-HasTimersOf b s).0 v
handle-IsDebounced now p (removes_notch none) s v = v
handle-IsDebounced now p (removes_notch (some b)) s v =
    HasTimersOf-IsDebounced s _ (handle_notch-HasTimersOf b s).1 v
handle-IsDebounced now p (toggles_notch none) s v = v
handle-IsDebounced now p (toggles_notch (some b)) s v =
    HasTimersOf-IsDebounced s _ (handle_notch-HasTimersOf b s).2 v
handle-IsDebounced now p clears_notches s v = record { starts = v.starts; stops = v.stops }
