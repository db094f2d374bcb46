-- ===== src/Words.antt =====
-- The lists of saved words and their decks.
pub mod Item
pub mod DeckCounts
pub mod CountLaws
pub mod MoveLaws
pub mod LearningItems
pub mod Stale
pub mod Loading
pub mod Races
pub mod Screen
pub mod Meanings
mod Tests
