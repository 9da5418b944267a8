-- ===== src/AutoGain.antt =====
-- src/middleware/web/auto-gain.ts: the gain of each frequency band, and its calibration against the
-- noise floor. Gains and powers are in thousandths of a decibel.
mod Bands
mod Calibration
pub mod Bounds
pub mod Verdicts
pub mod Store
pub mod Median
mod Tests
unfoldable pub use Bands.*
unfoldable pub use Calibration.*
