-- ===== src/Types/Satellite.antt =====
-- src/backend/types.ts: satellites, element sets, positions and passes.
use noaa_satellite_capture.Base.{ℕ, ◌+◌, ◌/◌, String, Bool, true, false, Option, List, ℤ}

pub record Coordinates : Type 0 where
  pub latitude : ℤ
  pub longitude : ℤ
  pub altitude : ℤ

pub data SignalType : Type 0 where
  sstv lrpt : SignalType

pub data DemodulationType : Type 0 where
  fm am ssb : DemodulationType

pub record SignalConfig : Type 0 where
  pub type : SignalType
  pub bandwidth : ℕ
  pub sample_rate : ℕ
  pub demodulation : DemodulationType

-- `event_based` is optional in the source; absent reads as false.
pub record SatelliteInfo : Type 0 where
  pub name : String
  pub norad_id : ℕ
  pub frequency : ℕ
  pub signal_type : SignalType
  pub signal_config : SignalConfig
  pub enabled : Bool
  pub event_based : Bool

pub record TwoLineElement : Type 0 where
  pub name : String
  pub line1 : String
  pub line2 : String

pub record SatellitePosition : Type 0 where
  pub azimuth : ℤ
  pub elevation : ℤ
  pub range_sat : ℤ
  pub timestamp : ℕ

pub record SatelliteGeolocation : Type 0 where
  pub norad_id : ℕ
  pub name : String
  pub latitude : ℤ
  pub longitude : ℤ
  pub altitude : ℤ
  pub signal_type : SignalType

pub record GroundTrackPoint : Type 0 where
  pub lat : ℤ
  pub lng : ℤ

pub record GroundTrack : Type 0 where
  pub norad_id : ℕ
  pub name : String
  pub signal_type : SignalType
  pub points : List GroundTrackPoint

pub record GlobeState : Type 0 where
  pub satellites : List SatelliteGeolocation
  pub ground_tracks : List GroundTrack
  pub station : Coordinates

-- `duration` is in milliseconds; the source divides it by 1000 and compares with seconds.
pub record SatellitePass : Type 0 where
  pub satellite : SatelliteInfo
  pub aos : ℕ
  pub los : ℕ
  pub max_elevation : ℤ
  pub max_elevation_time : ℕ
  pub duration : ℕ

pub record CaptureResult : Type 0 where
  pub satellite : SatelliteInfo
  pub recording_path : String
  pub image_paths : List String
  pub start_time : ℕ
  pub end_time : ℕ
  pub max_signal_strength : ℤ
  pub success : Bool
  pub error : Option String

-- `Math.ceil(ms / 1000)`.
abbrev pub ceil_seconds : ℕ → ℕ
ceil_seconds ms = (ms + 999) / 1000

-- `===` on the two signal types.
abbrev pub signal_type_eq : SignalType → SignalType → Bool
signal_type_eq sstv sstv = true
signal_type_eq lrpt lrpt = true
signal_type_eq _ _ = false
