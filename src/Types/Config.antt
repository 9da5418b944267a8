-- ===== src/Types/Config.antt =====
-- src/backend/types.ts: the configuration of the receiver.
use noaa_satellite_capture.Base.{ℕ, String, Bool, Option, ℤ}
use noaa_satellite_capture.Types.Satellite.{Coordinates}

pub data LogLevel : Type 0 where
  debug info warn error : LogLevel

pub data ServiceMode : Type 0 where
  full sdr_relay server : ServiceMode

pub record SdrConfig : Type 0 where
  pub gain : ℤ
  pub sample_rate : ℕ
  pub ppm_correction : ℤ

pub record RecordingConfig : Type 0 where
  pub min_elevation : ℤ
  pub min_signal_strength : ℤ
  pub skip_signal_check : Bool
  pub recordings_dir : String
  pub images_dir : String

pub record ReceiverConfig : Type 0 where
  pub service_mode : ServiceMode
  pub relay_url : Option String
  pub relay_port : ℕ
  pub relay_host : String
  pub station : Coordinates
  pub sdr : SdrConfig
  pub recording : RecordingConfig
  pub tle_update_interval_hours : ℕ
  pub web_port : ℕ
  pub web_host : String
  pub database_path : String
  pub log_level : LogLevel
  pub iss_sstv_enabled : Bool
