-- ===== src/Mlswire.antt =====
-- The structural checks of MLS key packages: server/internal/mlswire.
pub mod Reader
pub mod Vector
pub mod KeyPackage
pub mod Format
pub mod Extensions
pub mod Checks
pub mod Validate
mod Tests
