-- ===== src/Satellites.antt =====
-- src/backend/satellites/constants.ts: the satellites, their signals and the capture constraints.
use noaa_satellite_capture.Base.{ℕ, true, false, List, [], ◌∷◌, filter}
use noaa_satellite_capture.Types.{
  SignalType, sstv, lrpt, fm, SignalConfig, SatelliteInfo, signal_type_eq,
}

abbrev pub signal_configs : SignalType → SignalConfig
signal_configs sstv = record {
  type = sstv;
  bandwidth = 3000;
  sample_rate = 48000;
  demodulation = fm;
}
signal_configs lrpt = record {
  type = lrpt;
  bandwidth = 120000;
  sample_rate = 1024000;
  demodulation = fm;
}

abbrev pub iss : SatelliteInfo
iss = record {
  name = "ISS";
  norad_id = 25544;
  frequency = 145_800_000;
  signal_type = sstv;
  signal_config = signal_configs sstv;
  enabled = false;
  event_based = true;
}

abbrev pub meteor_n2_3 : SatelliteInfo
meteor_n2_3 = record {
  name = "METEOR-M N2-3";
  norad_id = 57166;
  frequency = 137_900_000;
  signal_type = lrpt;
  signal_config = signal_configs lrpt;
  enabled = true;
  event_based = false;
}

abbrev pub meteor_n2_4 : SatelliteInfo
meteor_n2_4 = record {
  name = "METEOR-M N2-4";
  norad_id = 59051;
  frequency = 137_900_000;
  signal_type = lrpt;
  signal_config = signal_configs lrpt;
  enabled = true;
  event_based = false;
}

abbrev pub satellites : List SatelliteInfo
satellites = iss ∷ meteor_n2_3 ∷ meteor_n2_4 ∷ []

abbrev pub weather_satellites : List SatelliteInfo
weather_satellites = filter (λ s. signal_type_eq s.signal_type lrpt) satellites

-- PASS_CONSTRAINTS.captureBufferSeconds and the two bounds that `findPasses` writes out.
abbrev pub capture_buffer_seconds : ℕ
capture_buffer_seconds = 60

abbrev pub min_duration_seconds : ℕ
min_duration_seconds = 240

abbrev pub max_duration_seconds : ℕ
max_duration_seconds = 1200

abbrev pub prediction_horizon_hours : ℕ
prediction_horizon_hours = 24
