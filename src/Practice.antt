-- ===== src/Practice.antt =====
-- The practice session: frontend/src/features/practice.
pub mod Item
pub mod Updates
pub mod Queue
pub mod Shuffle
pub mod Retry
pub mod Progress
pub mod Session
pub mod Flush
pub mod Finish
pub mod Delivery
mod Tests
