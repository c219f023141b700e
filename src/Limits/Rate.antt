-- ===== src/Limits/Rate.antt =====
-- The rate limiter of the HTTP server (server/internal/app/app.go): the bucket tables, the
-- requests and the charges that settle them.
pub mod Buckets
pub mod Limiter
pub mod Evict
pub mod Bounded
pub mod Spent
pub mod Answers
mod Tests
