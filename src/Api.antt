-- ===== src/Api.antt =====
-- foxrunner/: what protects the API.
pub mod Idempotency
pub mod Replay
pub mod Pages
pub mod RateLimit
pub mod Quota
mod Witnesses
