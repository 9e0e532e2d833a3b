-- ===== src/Replay/Env.antt =====
-- What src/wal/replay.rs is given: the settings, the packages that it calls (serde_json, humantime),
-- the other parts of the program that it calls (src/sinks/state.rs, src/ingest/processor.rs,
-- src/services/project.rs) and the outside world, which answers each call as it likes.
use ingest4x.Prelude.{ℕ, ◌+◌, ◌-◌, ◌^◌, Option, List, min, Bool}
use ingest4x.Prelude.Int.{ℤ}
use ingest4x.Bytes.{Bytes}
use ingest4x.Text.{Text}
use ingest4x.Result.{Result, IoError}
use ingest4x.Wal.Record.{WalRecord, Codec}
use ingest4x.Wal.Checkpoint.{CheckpointFormat, AutoOffsetReset, WriteFault}

-- `u64::saturating_add`
abbrev pub sat_add : ℕ → ℕ → ℕ
sat_add a b = min (a + b) (2 ^ 64 - 1)

-- `EventSinkBatchConfig`: what a sink overrides.
pub record EventSinkBatchConfig : Type 0 where
  pub max_events : Option ℕ
  pub max_bytes : Option ℕ
  pub timeout : Option Text

-- The parts of `ReplaySettings` and `CheckpointSettings`.
pub record ReplaySettings : Type 0 where
  pub max_records : ℕ
  pub max_bytes : ℕ
  pub batch_max_events : ℕ
  pub batch_max_bytes : ℕ
  pub batch_timeout : Text

pub record CheckpointSettings : Type 0 where
  pub flush_interval : Text
  pub flush_records : ℕ
  pub flush_bytes : ℕ

pub record EventSinkBatchMetadata : Type 0 where
  pub node_id : Text
  pub lsn_start : ℕ
  pub lsn_end : ℕ

-- The outside world counts the calls that it has answered; the answer to each is arbitrary.
pub record ReplayEnv : Type 1 where
  -- `serde_json::Value`
  pub Value : Type 0
  pub from_slice : Bytes → Result Text Value
  pub to_vec : Value → Result Text Bytes
  -- `json.get("xwhat").and_then(Value::as_str)`
  pub xwhat : Value → Option Text
  -- `humantime::parse_duration`, in nanoseconds
  pub parse_duration : Text → Result Text ℕ
  -- `ProcessorRuntime::process_event` with the request context of the record: what was emitted
  pub process_event : ℤ → Value → WalRecord → Result Text (List (Text × Value))
  pub contains_project_id : ℤ → Bool
  pub sink_names : List Text
  pub contains_sink : Text → Bool
  pub auto_offset_reset : Text → Option AutoOffsetReset
  pub batch_config : Text → Option EventSinkBatchConfig
  pub replay : ReplaySettings
  pub checkpoint : CheckpointSettings
  pub codec : Codec
  pub format : CheckpointFormat
  -- the directory of the log
  pub dir : Text
  -- call number n: the error chain of a sink that refuses a batch; an I/O error; the instant
  pub send_error : ℕ → Option (List Text)
  pub io_error : ℕ → Option IoError
  pub write_fault : ℕ → Option WriteFault
  pub instant : ℕ → ℕ
