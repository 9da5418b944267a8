-- ===== src/Fft.antt =====
-- src/backend/capture/fft-stream.ts: the spectrum stream from the SDR. Powers are in thousandths of
-- a decibel, frequencies in hertz, times in milliseconds.
pub mod Notch
pub mod Stream
pub mod Frames
mod Tests
use noaa_satellite_capture.Base.{ℕ, Bool, List, ℤ}

pub record FftData : Type 0 where
  pub timestamp : ℕ
  pub center_freq : ℕ
  pub bins : List ℤ
  pub min_power : ℤ
  pub max_power : ℤ

pub record FftStreamConfig : Type 0 where
  pub frequency : ℕ
  pub bandwidth : ℕ
  pub fft_size : ℕ
  pub gain : ℤ
  pub update_rate : ℕ

pub record NotchFilter : Type 0 where
  pub frequency : ℕ
  pub width : ℕ
  pub enabled : Bool

abbrev pub min_restart_delay_ms : ℕ
min_restart_delay_ms = 4_000

abbrev pub averaging_frames : ℕ
averaging_frames = 8

abbrev pub fft_sample_rate : ℕ
fft_sample_rate = 250_000
