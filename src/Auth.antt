-- ===== src/Auth.antt =====
-- The session of the signed-in user: where it is kept and when it is renewed.
pub mod Storage
pub mod StorageOps
pub mod Expiry
pub mod Renewal
pub mod Timers
mod Tests
