-- ===== src/Backend.antt =====
-- What the parts of the Django backend share: replies and actions over a store, users, and the
-- redaction of secrets.
pub mod Exec
pub mod Laws
pub mod Frame
pub mod Users
pub mod Redaction
pub mod Hidden
mod Witnesses
