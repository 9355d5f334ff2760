-- ===== src/Terminal.antt =====
-- The terminal sessions of cpp/terminal: the writer lease and the recordings.
pub mod Lease
pub mod Recording
mod Tests
