-- ===== src/Lib.antt =====
-- The ingest of src/: a server that takes events over HTTP, appends them to a write-ahead log, and
-- replays the log through scripts into sinks. This library models the log and the replay, whose
-- promise is that no event is lost: what was written is read back after a crash, and the checkpoint
-- moves only behind what the sinks accepted.
--
-- The parts, and the files that model them:
--   Prelude, Bytes, Text, Result: numbers, bytes, UTF-8 text and errors. A text is its UTF-8 bytes.
--   Wal/Record, Wal/Frame, Wal/Segment: src/wal/mod.rs, the records, `serialize_frame` and
--     `read_record_frame`, the header of a segment file.
--   Wal/Scan: src/wal/mod.rs, `scan_segment`, `repair_segment_tail`, `read_segment_entries_after`.
--     Wal/Scan/Image is the abstract view of a file: the frames that were written, and a torn rest.
--   Wal/Log: src/wal/mod.rs, the reads over all segments, `read_wal_bounds`, and the clean-up.
--   Wal/Startup: src/wal/mod.rs, what `WalWriter::new` recovers from the directory.
--   Wal/Files: the segment files by their ids. Wal/Writer: src/wal/mod.rs, `WalWriterInner`: its state
--     and actions (State), what it does to the files (Disk), the buffer, its flush and `append` (Flush);
--     the other files of Wal/Writer say what an action leaves, up to all runs of the writer (Calls),
--     what a caller finds (Answers), what a start makes (Start) and what it keeps (Restart).
--   Wal/Issue: src/wal/error.rs, `ReplayIssue` and its classification.
--   Wal/Checkpoint: src/wal/replay.rs, the checkpoint file.
--   Replay/Env: what the replay is given. Replay/State: its state and the steps of the checkpoint.
--   Replay/Group, Replay/Send, Replay/Flush: src/wal/replay.rs, what a record becomes, how a sink is
--     sent its events, and `replay_batch_to_sinks`. Replay/Once: `replay_once_inner`.
--   Replay/Safety: when a state of the replay is safe, and that each step, each batch and the pass over
--     the log keep it so.
--   Services/Project: src/services/project.rs, the registry of the projects under its refreshes.
--   Ingest/Issue, Ingest/Request, Ingest/Endpoint: src/ingest/endpoint.rs, the handler of a request down to
--     the log. Ingest/Admitted, Ingest/Secret, Ingest/Acknowledged: which requests are admitted, that the
--     token is not stored, and what a response of 200 says.
--   Sinks/Router: src/sinks/state.rs, the sinks by their ids and the sending of deliveries to them.
--   Validation/Value, Validation/Field: src/rhai_ctx/event_validation.rs, the checks on the fields of an
--     event. Validation/Chain: what a chain of checks that passes says of the value.
--   Tests: concrete instances, and the theorems at concrete inputs.
--
-- The replay calls the log (it reads entries, removes segments) and the checkpoint file, and asks the
-- scripts and the sinks. Code of other packages is a parameter: bitcode and crc32fast (`Codec`),
-- serde_json on the checkpoint (`CheckpointFormat`), serde_json and serde_urlencoded on
-- requests (`Parsers`), the database of the registry (`Repository`), and in `ReplayEnv` the processor, the projects,
-- humantime, serde_json on events, the sinks, the clock and the disk. `IsCodec` and `IsFormat` state
-- what their documentation promises. Each call of the outside world has a number and an arbitrary
-- answer, so that every order of failures is covered. A failure between two calls is an error value;
-- what was done before it stays done.
--
-- Numbers are natural; words of the formats are cut to their width by `be_bytes`, sums that may pass
-- 2 ^ 64 are `wrap_add` or `sat_add` as in a release build. An offset in a file is not cut: files do
-- not reach 2 ^ 64 bytes. The loops over the bytes of a segment run on fuel, one more than the bytes
-- that are left, which is enough since each frame takes some (Wal/Scan/Fuel).
--
-- The lock of the writer makes each of its calls one step, so that a run is a sequence of calls; the
-- flush thread is a call that may come at any time. A failed write leaves any part of its bytes, and a
-- failed rename or removal leaves the file as it was.
--
-- Not modelled: a poisoned lock; what a power failure does to bytes that were not synced; reads of existing
-- files that fail; the texts that bitcode and serde_json give for their errors, and those of some
-- messages in full; the metrics; the HTTP server, the administration, the database, the code of the sinks and the scripts.
pub mod Prelude
pub mod Bytes
pub mod Text
pub mod Result
pub mod Wal
pub mod Replay
pub mod Services
pub mod Ingest
pub mod Validation
pub mod Sinks
mod Tests
