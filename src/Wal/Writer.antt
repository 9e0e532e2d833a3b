-- ===== src/Wal/Writer.antt =====
-- `WalWriter` of src/wal/mod.rs: records are buffered and flushed to the active segment; a flush that
-- fails is rolled back.
pub mod State
pub mod Disk
pub mod Flush
pub mod Ensures
pub mod Grown
pub mod Active
pub mod Steps
pub mod Loop
pub mod RollBack
pub mod Invariant
pub mod Flushed
pub mod Runs
pub mod Calls
pub mod Answers
pub mod Open
pub mod Reopened
pub mod Start
pub mod Kept
pub mod Restart
