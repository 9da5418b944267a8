-- ===== src/Relay.antt =====
-- src/sdr-relay/server.ts: the relay that owns the SDR and serves it to a remote dashboard. A
-- handler that awaits is cut at the await where another request may come between its parts.
mod Sessions
mod Handlers
pub mod Routes
pub mod Laws
pub mod Races
mod Tests
unfoldable pub use Sessions.*
unfoldable pub use Handlers.*
