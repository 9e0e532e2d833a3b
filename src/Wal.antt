-- ===== src/Wal.antt =====
-- The write-ahead log (src/wal): a module for each part of it.
pub mod Record
pub mod Frame
pub mod Segment
pub mod Scan
pub mod Issue
pub mod Log
pub mod Checkpoint
pub mod Startup
pub mod Files
pub mod Writer
