-- ===== src/Web/Gains.antt =====
-- How the gain of src/middleware/web/server.ts is set, by the calibration and by hand.
use noaa_satellite_capture.Base.{ℕ, suc, ◌≡◌, refl, ◌⊎◌, true, false, Option, none, some, arith, ℤ}
use noaa_satellite_capture.AutoGain.{
  classify_band, get, BandGain, get_for_frequency, adjusted, enable, disable, set_gain,
}
use noaa_satellite_capture.AutoGain.Store.{get-set, get-clear, get_for_frequency-set}
use noaa_satellite_capture.Fft.{FftStreamConfig}
use noaa_satellite_capture.Fft.Stream.{is_fft_stream_running, start_fft_stream}
use noaa_satellite_capture.Fft.Stream.Laws.{start_fft_stream_keeps_gain}
use noaa_satellite_capture.Web.{WebServer, Environment, broadcast_callback, stream_frequency}
use noaa_satellite_capture.Web.Stream.{
  clear_start, debounced_fft_start, prepare_fft_start, started_config, run_fft_start, find_start,
  fire_start, follow_verdict,
}
use noaa_satellite_capture.Web.Socket.{is_gain, change_gain}
use noaa_satellite_capture.Web.Http.{GainBody, gain_changed, fails, is_automatic, handle_gain}
use noaa_satellite_capture.Web.Requests.{find_armed}

-- What a start that fires leaves, where the gain of its band is known.
fire_start_known :
    (env : Environment) (now : ℕ) (p : Option ℕ) (t f : ℕ) (b : BandGain) (s : WebServer)
    → find_start t s.start_timers ≡ some f
    → get_for_frequency f env.default_gain s.band_gain_store ≡ b
    → b.needs_calibration ≡ false
    → let fired = fire_start env now p t s in
      let config = started_config f (record s { current_gain = b.gain }) in
      (fired.auto_gain.state.enabled ≡ false)
      × (fired.current_gain ≡ b.gain)
      × (fired.stream ≡ (start_fft_stream now config broadcast_callback p s.stream).0)
unfolding fire_start run_fft_start prepare_fft_start disable
fire_start_known env now p t f b s e k n = (ground arith, ground arith, ground arith)

-- When a frame makes the calibration move the gain, the start that this arms turns the calibration
-- off, where the band of the stream's frequency is the current band: the band counts as calibrated
-- after one step.
adjusted_stops_calibration :
    (env : Environment) (now : ℕ) (p : Option ℕ) (old new : ℤ) (s : WebServer)
    → classify_band (stream_frequency s.stream.current_config) ≡ s.current_band
    → let armed = follow_verdict (adjusted old new) s in
      let fired = fire_start env now p s.next_timer armed in
      (fired.auto_gain.state.enabled ≡ false) × (fired.current_gain ≡ new)
unfolding follow_verdict fire_start debounced_fft_start run_fft_start prepare_fft_start disable
adjusted_stops_calibration env now p old new s h =
    let f = stream_frequency s.stream.current_config in
    let armed = follow_verdict (adjusted old new) s in
    let found = find_armed s.next_timer f (clear_start s.pending_fft_start s.start_timers) in
    let at : find_start s.next_timer armed.start_timers ≡ some f = ground arith in
    let b : BandGain = record { band = s.current_band; gain = new; needs_calibration = false } in
    let stored = (get_for_frequency-set f f new env.default_gain false s.band_gain_store).0 in
    let known : get_for_frequency f env.default_gain armed.band_gain_store ≡ b = ground arith in
    let fired = fire_start_known env now p s.next_timer f b armed at known refl in
    (fired.0, fired.1)

-- A gain that is set while the stream runs reaches the server's state and the store, but not the
-- SDR: the start that it arms leaves the process and its configuration as they are, where the
-- stream's frequency is not 0 and of the current band.
changed_gain_is_not_applied :
    (env : Environment) (now f : ℕ) (p : Option ℕ) (g : ℤ) (c : FftStreamConfig) (s : WebServer)
    → is_fft_stream_running s.stream ≡ true
    → s.stream.current_config ≡ some c
    → c.frequency ≡ suc f
    → classify_band (suc f) ≡ s.current_band
    → let fired = fire_start env now p s.next_timer (change_gain g s) in
      (fired.current_gain ≡ g)
      × (fired.stream.current_config ≡ some c)
      × (fired.stream.sdr_process ≡ s.stream.sdr_process)
unfolding change_gain debounced_fft_start fire_start run_fft_start prepare_fft_start
changed_gain_is_not_applied env now f p g c s r e k h =
    let armed = change_gain g s in
    let at : find_start s.next_timer armed.start_timers ≡ some (suc f) =
      let found =
        find_armed s.next_timer (suc f) (clear_start s.pending_fft_start s.start_timers) in
      ground arith in
    let b : BandGain = record { band = s.current_band; gain = g; needs_calibration = false } in
    let known : get_for_frequency (suc f) env.default_gain armed.band_gain_store ≡ b =
      let stored =
        (get_for_frequency-set (suc f) (suc f) g env.default_gain true s.band_gain_store).0 in
      ground arith in
    let fired = fire_start_known env now p s.next_timer (suc f) b armed at known refl in
    let kept =
      start_fft_stream_keeps_gain now (started_config (suc f) (record armed { current_gain = g })) c
        broadcast_callback p armed.stream (unfold is_fft_stream_running in ground arith)
        (ground arith) (ground arith) in
    (fired.1, ground arith, ground arith)

-- The answer to a change of the gain, and its effect. It fails with the code 400 just when there is
-- no body, or no automatic calibration is asked for and the gain is missing or not from 0 to 49 dB,
-- and then nothing changes. A request for calibration forgets the band's gain and turns it on; a
-- gain is kept as the band's and turns it off.
handle_gain_lem :
    (body : GainBody) (s : WebServer)
    → let (t, answer) = handle_gain (some body) s in
      (is_automatic body.automatic ≡ true
        → (answer ≡ gain_changed s.current_gain true)
          × (t.auto_gain.state.enabled ≡ true)
          × (get s.current_band t.band_gain_store ≡ none))
      × ((g : ℤ)
          → is_automatic body.automatic ≡ false
          → body.gain ≡ some g
          → is_gain g ≡ true
          → (answer ≡ gain_changed g false)
            × (t.current_gain ≡ g)
            × (t.auto_gain.state.enabled ≡ false)
            × (get s.current_band t.band_gain_store
                ≡ some (record { band = s.current_band; gain = g; calibrated = true })))
      × (is_automatic body.automatic ≡ false
          → (body.gain ≡ none) ⊎ ((g : ℤ) × (body.gain ≡ some g) × (is_gain g ≡ false))
          → (t ≡ s) × (answer ≡ fails 400 "Gain must be between 0 and 49"))
unfolding handle_gain change_gain debounced_fft_start enable set_gain
handle_gain_lem body s = (
  λ a. (
    ground arith,
    ground arith,
    ground (arith, get-clear s.current_band s.current_band s.band_gain_store),
  ),
  λ g a e k. ground (arith, get-set s.current_band s.current_band g true s.band_gain_store),
  λ a e. ground arith,
)
