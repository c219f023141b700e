-- ===== src/Realtime.antt =====
-- The realtime part of the server: server/internal/realtime.
pub mod Client
pub mod Hub
pub mod Index
pub mod Counters
pub mod Invariant
pub mod Remove
pub mod Register
pub mod Disconnect
pub mod Methods
pub mod Reach
pub mod Outcome
pub mod Publish
pub mod Drained
mod Tests
