-- ===== src/Dashboard/State.antt =====
-- The values that src/frontend/src/hooks/useWebSocket.ts keeps.
use noaa_satellite_capture.Base.{ℕ, String, Bool, false, Option, none, List, []}
use noaa_satellite_capture.Types.{GlobeState, SatellitePass, SystemStatus}
use noaa_satellite_capture.Fft.{FftData, FftStreamConfig}

-- The status of the dashboard: 'recording' is its own word, and 'capturing' comes from the server.
pub data ClientStatus : Type 0 where
  from_server : SystemStatus → ClientStatus
  recording : ClientStatus

-- `SystemState` of the dashboard, without the fields that the messages after 'init' leave alone.
pub record ClientState : Type 0 where
  pub status : ClientStatus
  pub current_pass : Option SatellitePass
  pub next_pass : Option SatellitePass
  pub upcoming_passes : List SatellitePass
  pub scanning_frequency : Option ℕ
  pub scanning_frequency_name : Option String

pub record CaptureProgress : Type 0 where
  pub percentage : ℕ
  pub elapsed : ℕ
  pub total : ℕ

pub record FftState : Type 0 where
  pub running : Bool
  pub config : Option FftStreamConfig
  pub error : Option String

pub record WsState : Type 0 where
  pub connected : Bool
  pub error : Option String
  pub reconnect_attempts : ℕ

-- The values that the hook keeps; `frames` is what was passed to `onFFTData`, newest first, and
-- `timers` the delays after which `connect` is called.
pub record Dashboard : Type 0 where
  pub has_socket : Bool
  pub reconnect_attempts : ℕ
  pub ws_state : WsState
  pub system_state : Option ClientState
  pub globe_state : Option GlobeState
  pub passes : List SatellitePass
  pub progress : Option CaptureProgress
  pub fft_state : FftState
  pub frames : List FftData
  pub timers : List ℕ

abbrev pub initial_ws_state : WsState
initial_ws_state = record { connected = false; error = none; reconnect_attempts = 0 }

abbrev pub initial_dashboard : Dashboard
initial_dashboard = record {
  has_socket = false;
  reconnect_attempts = 0;
  ws_state = initial_ws_state;
  system_state = none;
  globe_state = none;
  passes = [];
  progress = none;
  fft_state = record { running = false; config = none; error = none };
  frames = [];
  timers = [];
}
