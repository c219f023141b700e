-- ===== src/Storage/Mls.antt =====
-- The MLS groups of the store: commits, rosters and revocations.
pub mod Revocations
pub mod Messages
pub mod Commit
pub mod Bundle
pub mod Frames
pub mod Accepted
pub mod Fresh
pub mod Epochs
pub mod Retry
pub mod Roster
pub mod Counts
pub mod Single
pub mod Reach
pub mod SelfUpdate
pub mod Race
mod Tests
