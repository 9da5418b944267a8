-- ===== src/Types/State.antt =====
-- src/backend/types.ts: the state that the dashboard shows, and the events that it is sent.
use noaa_satellite_capture.Base.{ℕ, String, Bool, true, false, Option, List}
use noaa_satellite_capture.Types.Satellite.{GlobeState, SatellitePass, CaptureResult}

pub data SystemStatus : Type 0 where
  idle waiting capturing decoding scanning : SystemStatus

pub record SystemState : Type 0 where
  pub status : SystemStatus
  pub current_pass : Option SatellitePass
  pub next_pass : Option SatellitePass
  pub upcoming_passes : List SatellitePass
  pub capture_progress : ℕ
  pub capture_elapsed : ℕ
  pub capture_total : ℕ
  pub last_update : ℕ
  pub scanning_frequency : Option ℕ
  pub scanning_frequency_name : Option String

pub data StateEvent : Type 0 where
  status_change : SystemStatus → StateEvent
  pass_start : SatellitePass → StateEvent
  pass_complete : CaptureResult → StateEvent
  capture_progress : ℕ → ℕ → ℕ → StateEvent
  passes_updated : List SatellitePass → StateEvent
  satellite_positions : GlobeState → StateEvent
  scanning_frequency : ℕ → String → StateEvent

pub record SstvEvent : Type 0 where
  pub id : String
  pub name : String
  pub start_time : ℕ
  pub end_time : ℕ
  pub modes : List String
  pub active : Bool

-- The tests `status === '…'` of the source.
abbrev pub is_scanning : SystemStatus → Bool
is_scanning scanning = true
is_scanning _ = false

-- `status === 'capturing' || status === 'decoding'`: the SDR is held by a recording.
abbrev pub sdr_in_use : SystemStatus → Bool
sdr_in_use capturing = true
sdr_in_use decoding = true
sdr_in_use _ = false
