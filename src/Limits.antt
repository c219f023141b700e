-- ===== src/Limits.antt =====
-- The limiters that bound what a client can ask of the server.
pub mod Typing
pub mod Backoff
pub mod Rate
pub mod Identity
