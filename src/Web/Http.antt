-- ===== src/Web/Http.antt =====
-- src/middleware/web/server.ts: the requests that read or change the spectrum stream, its gain and
-- its notch filters. A body that cannot be read or parsed is `none`, as is a field that is missing.
-- A field is otherwise of the type that the code casts it to. One of another type is tested, and
-- refused like a missing one, for `auto` and for the frequency and `enabled` of a notch; elsewhere
-- the code takes it unseen (a gain of null passes both comparisons), and such bodies are left out.

use noaa_satellite_capture.Base.{
  ℕ, String, Bool, true, false, Option, none, some, List, [], ◌==◌, if◌then◌else◌, length, ℤ, pos,
  eqb_ℤ,
}
use noaa_satellite_capture.AutoGain.{clear, enable}
use noaa_satellite_capture.Fft.{FftStreamConfig, NotchFilter}
use noaa_satellite_capture.Fft.Notch.{
  add_notch_filter, remove_notch_filter, set_notch_filter_enabled, get_notch_filters,
  clear_notch_filters,
}
use noaa_satellite_capture.Fft.Stream.{is_fft_stream_running, stop_fft_stream, start_fft_stream}
use noaa_satellite_capture.Web.{WebServer, broadcast_callback, or_frequency}
use noaa_satellite_capture.Web.Socket.{is_gain, change_gain}

pub record StartBody : Type 0 where
  pub frequency : Option ℕ
  pub bandwidth : Option ℕ
  pub gain : Option ℤ
  pub fft_size : Option ℕ
  pub update_rate : Option ℕ

pub record GainBody : Type 0 where
  pub automatic : Option Bool
  pub gain : Option ℤ

pub record NotchBody : Type 0 where
  pub frequency : Option ℕ
  pub width : Option ℕ
  pub enabled : Option Bool

pub data Request : Type 0 where
  asks_fft_status : Request
  starts_fft : Option StartBody → Request
  sets_gain : Option GainBody → Request
  stops_fft : Request
  asks_notches : Request
  adds_notch : Option NotchBody → Request
  removes_notch : Option NotchBody → Request
  toggles_notch : Option NotchBody → Request
  clears_notches : Request

-- The answers; `fails` is a text with an error's code.
pub data Answer : Type 0 where
  fft_status : Bool → Option FftStreamConfig → ℕ → Answer
  fft_changed : Bool → Bool → Answer
  gain_changed : ℤ → Bool → Answer
  notches : Bool → List NotchFilter → Answer
  fails : ℕ → String → Answer

-- `gain || currentGain`.
abbrev or_gain : Option ℤ → ℤ → ℤ
or_gain none d = d
or_gain (some g) d = if eqb_ℤ g (pos 0) then d else g

unfoldable pub config_of : StartBody → WebServer → FftStreamConfig
config_of body s = record {
  frequency = or_frequency body.frequency 137_500_000;
  bandwidth = or_frequency body.bandwidth 200_000;
  fft_size = or_frequency body.fft_size 1_024;
  gain = or_gain body.gain s.current_gain;
  update_rate = or_frequency body.update_rate 10;
}

-- `POST /api/fft/start`, where nothing comes between the parts of the start.
unfoldable pub handle_fft_start : ℕ → Option ℕ → Option StartBody → WebServer → WebServer × Answer
unfolding config_of
handle_fft_start now spawned none s = (s, fails 400 "Bad Request")
handle_fft_start now spawned (some body) s =
    let (stream, success) =
      start_fft_stream now (config_of body s) broadcast_callback spawned s.stream in
    (record s { stream = stream }, fft_changed success (is_fft_stream_running stream))

abbrev pub is_automatic : Option Bool → Bool
is_automatic none = false
is_automatic (some b) = b

-- `POST /api/config/gain`.
unfoldable pub handle_gain : Option GainBody → WebServer → WebServer × Answer
unfolding change_gain enable
handle_gain none s = (s, fails 400 "Bad Request")
handle_gain (some body) s =
    if is_automatic body.automatic
    then (
      record s {
        band_gain_store = clear s.current_band s.band_gain_store;
        auto_gain = enable s.auto_gain;
      },
      gain_changed s.current_gain true,
    )
    else elim body.gain [
      | none ↦ (s, fails 400 "Gain must be between 0 and 49")
      | some gain ↦
          if is_gain gain
          then (change_gain gain s, gain_changed gain false)
          else (s, fails 400 "Gain must be between 0 and 49")
    ]

unfoldable pub handle_add_notch : Option NotchBody → WebServer → WebServer × Answer
handle_add_notch none s = (s, fails 400 "Bad Request")
handle_add_notch (some body) s =
    let frequency = or_frequency body.frequency 0 in
    let filters = add_notch_filter frequency (or_frequency body.width 5_000) s.notch_filters in
    if frequency == 0
    then (s, fails 400 "frequency required")
    else (record s { notch_filters = filters }, notches true filters)

unfoldable pub handle_remove_notch : Option NotchBody → WebServer → WebServer × Answer
handle_remove_notch none s = (s, fails 400 "Bad Request")
handle_remove_notch (some body) s =
    let frequency = or_frequency body.frequency 0 in
    let (filters, removed) = remove_notch_filter frequency s.notch_filters in
    if frequency == 0
    then (s, fails 400 "frequency required")
    else (record s { notch_filters = filters }, notches removed filters)

unfoldable pub handle_toggle_notch : Option NotchBody → WebServer → WebServer × Answer
handle_toggle_notch none s = (s, fails 400 "Bad Request")
handle_toggle_notch (some body) s =
    let frequency = or_frequency body.frequency 0 in
    elim body.enabled [
      | none ↦ (s, fails 400 "frequency and enabled required")
      | some enabled ↦
          let (filters, updated) = set_notch_filter_enabled frequency enabled s.notch_filters in
          if frequency == 0
          then (s, fails 400 "frequency and enabled required")
          else (record s { notch_filters = filters }, notches updated filters)
    ]

-- The end of the request handler: the part of it that the requests above reach.
unfoldable pub handle : ℕ → Option ℕ → Request → WebServer → WebServer × Answer
unfolding handle_fft_start handle_gain handle_add_notch handle_remove_notch handle_toggle_notch
handle now spawned asks_fft_status s = (
  s,
  fft_status (is_fft_stream_running s.stream) s.stream.current_config (length s.fft_subscribers),
)
handle now spawned (starts_fft body) s = handle_fft_start now spawned body s
handle now spawned (sets_gain body) s = handle_gain body s
handle now spawned stops_fft s =
    (record s { stream = stop_fft_stream now s.stream }, fft_changed true false)
handle now spawned asks_notches s = (s, notches true (get_notch_filters s.notch_filters))
handle now spawned (adds_notch body) s = handle_add_notch body s
handle now spawned (removes_notch body) s = handle_remove_notch body s
handle now spawned (toggles_notch body) s = handle_toggle_notch body s
handle now spawned clears_notches s =
    (record s { notch_filters = clear_notch_filters s.notch_filters }, notches true [])
