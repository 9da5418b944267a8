-- ===== src/Web/Stream.antt =====
-- src/middleware/web/server.ts: the debounced start of the spectrum stream, and the frames that the
-- stream gives to the server.
use noaa_satellite_capture.Base.{
  ℕ, ◌+◌, String, Bool, true, false, not, ◌&&◌, Option, none, some, List, [], ◌∷◌, ◌++◌, map, ltb,
  ◌==◌, if◌then◌else◌, length, drop, filter,
}
use noaa_satellite_capture.AutoGain.{
  set, get_for_frequency, GainAdjustResult, waiting, in_range, adjusted, limit_reached, AutoGain,
  feed, enable, disable,
}
use noaa_satellite_capture.Fft.{FftData, FftStreamConfig}
use noaa_satellite_capture.Fft.Stream.{start_fft_stream}
use noaa_satellite_capture.Web.{
  Message, fft_data, fft_error, WebServer, Environment, band_gain_targets, fft_history_max,
  broadcast_callback, stream_frequency,
}

-- `clearTimeout(timer)` for a timer that may be null.
abbrev pub clear_start : Option ℕ → List (ℕ × ℕ) → List (ℕ × ℕ)
clear_start none timers = timers
clear_start (some t) timers = filter (λ (e : ℕ × ℕ). not (e.0 == t)) timers

abbrev pub clear_stop : Option ℕ → List ℕ → List ℕ
clear_stop none timers = timers
clear_stop (some t) timers = filter (λ (e : ℕ). not (e == t)) timers

unfoldable pub debounced_fft_start : ℕ → WebServer → WebServer
debounced_fft_start frequency s = record s {
  start_timers = (s.next_timer, frequency) ∷ clear_start s.pending_fft_start s.start_timers;
  pending_fft_start = some s.next_timer;
  next_timer = s.next_timer + 1;
}

-- The part of the timer's function before `startFFTStream`.
unfoldable pub prepare_fft_start : Environment → ℕ → WebServer → WebServer
unfolding enable disable
prepare_fft_start env frequency s =
    let found = get_for_frequency frequency env.default_gain s.band_gain_store in
    let s = record s {
      fft_history_buffer = [];
      current_band = found.band;
      current_gain = found.gain;
    } in
    let (low, high) = band_gain_targets found.band in
    let a = s.auto_gain in
    let aimed : AutoGain = record {
      config = record a.config { target_min = low; target_max = high };
      state = record a.state { current_gain = found.gain };
    } in
    record s {
      auto_gain =
          if found.needs_calibration && not env.has_sdr_gain then enable aimed else disable a;
    }

abbrev pub started_config : ℕ → WebServer → FftStreamConfig
started_config frequency s = record {
  frequency = frequency;
  bandwidth = 200_000;
  fft_size = 2_048;
  gain = s.current_gain;
  update_rate = 30;
}

-- The timer's function up to the end of `startFFTStream`, whose own awaits are cut in the model of
-- the stream; `thisTimeout` is the value of `pendingFFTStart` when it runs.
unfoldable pub run_fft_start : Environment → ℕ → Option ℕ → ℕ → WebServer → WebServer
unfolding prepare_fft_start
run_fft_start env now spawned frequency s =
    let prepared = prepare_fft_start env frequency s in
    let config = started_config frequency prepared in
    let (stream, _) = start_fft_stream now config broadcast_callback spawned prepared.stream in
    record prepared { stream = stream; starts_under_way = s.pending_fft_start ∷ s.starts_under_way }

abbrev pub find_start : ℕ → List (ℕ × ℕ) → Option ℕ
find_start t [] = none
find_start t ((u, f) ∷ timers) = if u == t then some f else find_start t timers

-- The timer `t` fires, if it is armed.
unfoldable pub fire_start : Environment → ℕ → Option ℕ → ℕ → WebServer → WebServer
fire_start env now spawned t s = elim (find_start t s.start_timers) [
  | none ↦ s
  | some frequency ↦
      run_fft_start env now spawned frequency
        (record s { start_timers = filter (λ (e : ℕ × ℕ). not (e.0 == t)) s.start_timers })
]

-- `pendingFFTStart === thisTimeout`.
abbrev pub is_same_timer : Option ℕ → Option ℕ → Bool
is_same_timer none none = true
is_same_timer none (some u) = false
is_same_timer (some t) none = false
is_same_timer (some t) (some u) = t == u

abbrev pub remove_start : Option ℕ → List (Option ℕ) → List (Option ℕ)
remove_start this_timeout [] = []
remove_start this_timeout (t ∷ ts) =
    if is_same_timer t this_timeout then ts else t ∷ remove_start this_timeout ts

abbrev pub is_under_way : Option ℕ → List (Option ℕ) → Bool
is_under_way this_timeout [] = false
is_under_way this_timeout (t ∷ ts) =
    if is_same_timer t this_timeout then true else is_under_way this_timeout ts

-- The rest of the timer's function, after its await; other inputs may come before it.
unfoldable pub end_start : Option ℕ → WebServer → WebServer
end_start this_timeout s =
    let pending =
      if is_same_timer s.pending_fft_start this_timeout then none else s.pending_fft_start in
    if is_under_way this_timeout s.starts_under_way
    then record s {
      starts_under_way = remove_start this_timeout s.starts_under_way;
      pending_fft_start = pending;
    }
    else s

-- The loop that sends to each subscriber and forgets those whose `send` throws.
unfoldable pub broadcast_to_subscribers : (ℕ → Bool) → Message → WebServer → WebServer
broadcast_to_subscribers sends message s =
    let reached = filter sends s.fft_subscribers in
    record s { sent = map (λ (ws : ℕ). (ws, message)) reached ++ s.sent; fft_subscribers = reached }

unfoldable pub broadcast_fft_error : (ℕ → Bool) → String → WebServer → WebServer
unfolding broadcast_to_subscribers
broadcast_fft_error sends message s = broadcast_to_subscribers sends (fft_error message) s

-- The test of the error a while after a start.
unfoldable pub report_fft_error : (ℕ → Bool) → WebServer → WebServer
unfolding broadcast_fft_error
report_fft_error sends s = elim s.stream.last_error [
  | none ↦ s
  | some message ↦ broadcast_fft_error sends message s
]

unfoldable pub push_history : FftData → List FftData → List FftData
push_history frame buffer =
    let pushed = buffer ++ frame ∷ [] in
    if ltb fft_history_max (length pushed) then drop 1 pushed else pushed

-- What the server does with the verdict of the calibration.
unfoldable pub follow_verdict : GainAdjustResult → WebServer → WebServer
unfolding debounced_fft_start
follow_verdict waiting s = s
follow_verdict (adjusted old_gain new_gain) s =
    debounced_fft_start (stream_frequency s.stream.current_config) (record s {
      current_gain = new_gain;
      band_gain_store = set s.current_band new_gain false s.band_gain_store;
    })
follow_verdict (in_range gain) s = record s {
  current_gain = gain;
  band_gain_store = set s.current_band gain true s.band_gain_store;
}
follow_verdict (limit_reached gain) s = record s {
  current_gain = gain;
  band_gain_store = set s.current_band gain true s.band_gain_store;
}

abbrev pub has_none : List ℕ → Bool
has_none [] = true
has_none (x ∷ xs) = false

unfoldable pub broadcast_fft_data : (ℕ → Bool) → FftData → WebServer → WebServer
unfolding follow_verdict push_history broadcast_to_subscribers
broadcast_fft_data sends frame s =
    let s = record s { fft_history_buffer = push_history frame s.fft_history_buffer } in
    let (fed, result) = feed frame.bins s.auto_gain in
    let followed = follow_verdict result (record s { auto_gain = fed }) in
    if has_none s.fft_subscribers
    then s
    else broadcast_to_subscribers sends (fft_data frame)
        (if s.auto_gain.state.enabled then followed else s)
