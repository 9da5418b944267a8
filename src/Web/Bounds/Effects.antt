-- ===== src/Web/Bounds/Effects.antt =====
-- The bounds of the state under the starts of the stream, the frames and the gains that
-- src/middleware/web/server.ts takes.
use noaa_satellite_capture.Base.{
  ℕ, ◌≤◌, ◌≡◌, inl, inr, Bool, true, false, not, Option, List, [], ◌∷◌, ◌++◌, arith, ◌==◌,
  Option-cases, length, length-append, length-drop, filter, ℤ,
}
use noaa_satellite_capture.AutoGain.{
  GainAdjustResult, waiting, in_range, adjusted, limit_reached, AutoGain, feed,
}
use noaa_satellite_capture.AutoGain.Bounds.{feed-IsCalibrating}
use noaa_satellite_capture.Fft.{FftData}
use noaa_satellite_capture.Web.{WebServer, Environment}
use noaa_satellite_capture.Web.Stream.{
  debounced_fft_start, prepare_fft_start, run_fft_start, find_start, fire_start, push_history,
  follow_verdict, broadcast_fft_data,
}
use noaa_satellite_capture.Web.Socket.{is_gain, change_gain}
use noaa_satellite_capture.Web.Bounds.Kept.{
  InRange, IsBounded, set-HasGains, get_for_frequency-InRange,
}

pub debounced_fft_start-IsBounded :
    (f : ℕ) (s : WebServer) → IsBounded s → IsBounded (debounced_fft_start f s)
unfolding debounced_fft_start
debounced_fft_start-IsBounded f s v = ground arith

prepare_fft_start-IsBounded :
    (env : Environment) (f : ℕ) (s : WebServer)
    → InRange env.default_gain
    → IsBounded s
    → IsBounded (prepare_fft_start env f s)
unfolding prepare_fft_start
prepare_fft_start-IsBounded env f s h v =
    ground (arith, get_for_frequency-InRange f env.default_gain s.band_gain_store h v.stored)

pub fire_start-IsBounded :
    (env : Environment) (now : ℕ) (p : Option ℕ) (t : ℕ) (s : WebServer)
    → InRange env.default_gain
    → IsBounded s
    → IsBounded (fire_start env now p t s)
unfolding fire_start run_fft_start
fire_start-IsBounded env now p t s h v = elim (Option-cases (find_start t s.start_timers)) [
  | inl nothing ↦ ground arith
  | inr (f, found) ↦
      let armed = filter (λ (e : ℕ × ℕ). not (e.0 == t)) s.start_timers in
      let fired = record s { start_timers = armed } in
      let w : IsBounded fired = ground arith in
      let prepared = prepare_fft_start-IsBounded env f fired h w in
      rw (found, fire_start) (ground arith)
]

length-push_history :
    (d : FftData) (l : List FftData) → length l ≤ 150 → length (push_history d l) ≤ 150
unfolding push_history
length-push_history d l h =
    let pushed = length-append l (d ∷ []) in
    let dropped = length-drop 1 (l ++ d ∷ []) in ground (arith, pushed, dropped)

-- The gain of a verdict is the one that the calibration now has.
abbrev verdict_gain : GainAdjustResult → ℤ → ℤ
verdict_gain waiting g = g
verdict_gain (in_range g) _ = g
verdict_gain (adjusted old g) _ = g
verdict_gain (limit_reached g) _ = g

feed-verdict_gain :
    (bins : List ℤ) (a : AutoGain)
    → let (b, r) = feed bins a in
      (verdict_gain r b.state.current_gain ≡ b.state.current_gain) × (b.config ≡ a.config)
unfolding feed
feed-verdict_gain bins a = ground arith

follow_verdict-IsBounded :
    (r : GainAdjustResult) (g : ℤ) (s : WebServer)
    → verdict_gain r g ≡ g
    → InRange g
    → IsBounded s
    → IsBounded (follow_verdict r s)
unfolding follow_verdict
follow_verdict-IsBounded waiting g s e h v = v
follow_verdict-IsBounded (adjusted old new) g s e h v =
    let kept = set-HasGains s.current_band g false s.band_gain_store h v.stored in ground arith
follow_verdict-IsBounded (in_range new) g s e h v =
    let kept = set-HasGains s.current_band g true s.band_gain_store h v.stored in ground arith
follow_verdict-IsBounded (limit_reached new) g s e h v =
    let kept = set-HasGains s.current_band g true s.band_gain_store h v.stored in ground arith

pub broadcast_fft_data-IsBounded :
    (sends : ℕ → Bool) (d : FftData) (s : WebServer)
    → IsBounded s
    → IsBounded (broadcast_fft_data sends d s)
unfolding broadcast_fft_data
broadcast_fft_data-IsBounded sends d s v =
    let pushed = record s { fft_history_buffer = push_history d s.fft_history_buffer } in
    let fed = (feed d.bins s.auto_gain).0 in
    let result = (feed d.bins s.auto_gain).1 in
    let (same, config) = feed-verdict_gain d.bins s.auto_gain in
    let calibrating = feed-IsCalibrating d.bins s.auto_gain v.calibrating in
    let history = length-push_history d s.fft_history_buffer v.history in
    let small : IsBounded pushed = ground arith in
    let next : IsBounded (record pushed { auto_gain = fed }) = ground arith in
    let range : InRange fed.state.current_gain = ground arith in
    let followed =
      follow_verdict-IsBounded result fed.state.current_gain (record pushed { auto_gain = fed })
        same range next in
    ground arith

pub change_gain-IsBounded :
    (g : ℤ) (s : WebServer) → is_gain g ≡ true → IsBounded s → IsBounded (change_gain g s)
unfolding change_gain
change_gain-IsBounded g s h v =
    let range : InRange g = unfold is_gain in ground arith in
    let kept = set-HasGains s.current_band g true s.band_gain_store range v.stored in ground arith
