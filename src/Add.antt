-- ===== src/Add.antt =====
-- Adding words: the choice of a sense, the queue of jobs, the words of a
-- passage, and the errors they show.
pub mod Senses
pub mod Errors
pub mod Queue
pub mod BestMatch
pub mod Worker
pub mod Runs
pub mod Sound
pub mod Single
pub mod SenseFlow
pub mod CaptureHistory
pub mod Passage
pub mod Capture
pub mod AnkiImport
pub mod Rank
pub mod Drain
pub mod Stranded
mod Tests
