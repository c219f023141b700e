-- ===== src/Storage/Links.antt =====
-- Device links: a new device asks to join an account, and a device of the account approves it.
pub mod State
pub mod Proof
pub mod Signed
pub mod Methods
pub mod Approval
pub mod Removal
pub mod Moves
pub mod Follows
pub mod Steps
pub mod Approved
pub mod Completed
pub mod Closing
pub mod Reach
mod Tests
