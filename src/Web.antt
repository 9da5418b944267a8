-- ===== src/Web.antt =====
-- src/middleware/web/server.ts: the state that the handlers share, and what they send. Gains are in
-- thousandths of a decibel, frequencies in hertz, times in milliseconds.
pub mod Stream
pub mod Socket
pub mod Http
pub mod Files
pub mod Inputs
pub mod Bounds
mod Guard
pub mod Debounced
pub mod Timers
pub mod Requests
pub mod Gains
pub mod Broadcast
mod Tests
use noaa_satellite_capture.Base.{
  ℕ, zero, suc, String, Bool, Option, none, some, List, [], ◌∷◌, if◌then◌else◌, ℤ, pos, neg,
}
use noaa_satellite_capture.Types.{GlobeState, SystemState, StateEvent}
use noaa_satellite_capture.AutoGain.{
  FrequencyBand, noaa, two_metre, unknown, BandGainStore, AutoGainConfig, AutoGain,
  create_auto_gain, disable,
}
use noaa_satellite_capture.Fft.{FftData, FftStreamConfig, NotchFilter}
use noaa_satellite_capture.Fft.Notch.{add_notch_filter}
use noaa_satellite_capture.Fft.Stream.{FftStream, initial_stream}

-- What a socket is sent; `welcomes` is the message 'init'.
pub data Message : Type 0 where
  welcomes :
      SystemState
      → Option GlobeState
      → Bool
      → Option FftStreamConfig
      → List NotchFilter
      → Option String
      → Message
  fft_history : List FftData → Message
  fft_subscribed : Bool → Option FftStreamConfig → Option String → Message
  fft_unsubscribed : Message
  gain_updated : ℤ → Message
  fft_data : FftData → Message
  fft_error : String → Message
  state_event : StateEvent → Message

-- The variables of the module and of the modules it drives. Sockets and timers are numbers;
-- `start_timers` and `stop_timers` are the timers that are armed,
-- `starts_under_way` holds `thisTimeout` of each start that has fired and not ended, `sent` is newest first.
pub record WebServer : Type 0 where
  pub clients : List ℕ
  pub fft_subscribers : List ℕ
  pub current_gain : ℤ
  pub current_band : FrequencyBand
  pub band_gain_store : BandGainStore
  pub auto_gain : AutoGain
  pub pending_fft_start : Option ℕ
  pub pending_fft_stop : Option ℕ
  pub start_timers : List (ℕ × ℕ)
  pub starts_under_way : List (Option ℕ)
  pub stop_timers : List ℕ
  pub next_timer : ℕ
  pub fft_history_buffer : List FftData
  pub stream : FftStream
  pub notch_filters : List NotchFilter
  pub sent : List (ℕ × Message)

-- `process.env.SDR_GAIN`, and the gain that stands in for it.
pub record Environment : Type 0 where
  pub default_gain : ℤ
  pub has_sdr_gain : Bool

abbrev pub band_gain_targets : FrequencyBand → ℤ × ℤ
band_gain_targets noaa = (neg 80_000, neg 55_000)
band_gain_targets two_metre = (neg 55_000, neg 35_000)
band_gain_targets unknown = (neg 75_000, neg 50_000)

abbrev pub server_auto_gain_config : AutoGainConfig
server_auto_gain_config = record {
  target_min = neg 80_000;
  target_max = neg 55_000;
  samples_needed = 10;
  step = pos 5_000;
  min_gain = pos 0;
  max_gain = pos 49_000;
}

abbrev pub fft_history_max : ℕ
fft_history_max = 150

-- The number of the callback `broadcastFFTData`.
abbrev pub broadcast_callback : ℕ
broadcast_callback = 1

-- The variables at the start of the module, and `startWebServer`'s default notch filter.
unfoldable pub initial_server : Environment → WebServer
unfolding create_auto_gain disable
initial_server env =
    let calibration = create_auto_gain env.default_gain server_auto_gain_config in
    record {
      clients = [];
      fft_subscribers = [];
      current_gain = env.default_gain;
      current_band = noaa;
      band_gain_store = [];
      auto_gain = if env.has_sdr_gain then disable calibration else calibration;
      pending_fft_start = none;
      pending_fft_stop = none;
      start_timers = [];
      starts_under_way = [];
      stop_timers = [];
      next_timer = 0;
      fft_history_buffer = [];
      stream = initial_stream;
      notch_filters = add_notch_filter 144_420_000 10_000 [];
      sent = [];
    }

abbrev pub or_frequency : Option ℕ → ℕ → ℕ
or_frequency none d = d
or_frequency (some zero) d = d
or_frequency (some (suc f)) d = suc f

-- `config?.frequency || 137_500_000`.
abbrev pub stream_frequency : Option FftStreamConfig → ℕ
stream_frequency none = 137_500_000
stream_frequency (some c) = or_frequency (some c.frequency) 137_500_000

abbrev pub send : ℕ → Message → WebServer → WebServer
send ws message s = record s { sent = (ws, message) ∷ s.sent }
