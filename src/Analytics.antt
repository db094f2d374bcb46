-- ===== src/Analytics.antt =====
-- The events that the client reports.
pub mod Event
pub mod Forbidden
pub mod Batches
pub mod Uploads
pub mod Screened
pub mod Typed
mod Tests
