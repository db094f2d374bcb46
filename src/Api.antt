-- ===== src/Api.antt =====
-- The shared API client: packages/api/src.
pub mod Client
pub mod Requests
pub mod Fallback
pub mod Notices
pub mod Unauthorized
pub mod SharedRefresh
mod Tests
