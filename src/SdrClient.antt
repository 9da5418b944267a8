-- ===== src/SdrClient.antt =====
-- src/backend/sdr-client/index.ts: the client of the relay (Relay).
pub mod Stream
pub mod Recorder
pub mod Checker
pub mod Detections
pub mod Endings
pub mod Laws
pub mod Relayed
mod Tests
