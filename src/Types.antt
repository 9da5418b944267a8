-- ===== src/Types.antt =====
-- The shared types of src/backend/types.ts. Instants are milliseconds since the epoch; elevations,
-- powers and gains are signed numbers in a fixed fraction of their unit.
mod Satellite
mod State
pub mod Config
pub use Satellite.*
pub use State.*
