-- ===== src/App.antt =====
-- The app around the screens: who is signed in.
pub mod Store
pub mod Session
pub mod Access
pub mod FailClosed
pub mod Extension
pub mod Crossing
pub mod Links
pub mod Settings
mod Tests
