-- ===== src/Replay.antt =====
-- The replay of the log to the sinks (src/wal/replay.rs).
pub mod Env
pub mod Send
pub mod State
pub mod Group
pub mod Flush
pub mod Once
pub mod Safety
