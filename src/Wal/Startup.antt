-- ===== src/Wal/Startup.antt =====
-- What `WalWriter::new` of src/wal/mod.rs recovers from the directory: the node id, the checkpoint, the
-- active segment and the next LSN, and the segment file that it makes sure of.
pub mod Fresh
use ingest4x.Prelude.{
  ℕ, ◌+◌, ◌%◌, ◌^◌, Bool, true, false, ◌&&◌, ◌||◌, not, Option, none, some, List, [], ◌∷◌, ◌++◌,
  length, leb, ltb, ◌==◌, max, is_empty, is_some, if◌then◌else◌,
}
use ingest4x.Prelude.Int.{wrap_add}
use ingest4x.Bytes.{Bytes}
use ingest4x.Text.{Text, codes, text_eq, trim}
use ingest4x.Result.{
  Result, ok, err, ◌>>=◌, ◌>>◌, guard, map_err, IoError, not_found, data_error, input_error,
  other_error,
}
use ingest4x.Wal.Record.{WalRecord, Codec}
use ingest4x.Wal.Segment.{
  segment_path, segment_header_len, SegmentHeader, serialize_segment_header, read_segment_header,
}
use ingest4x.Wal.Scan.{scan_segment}
use ingest4x.Wal.Log.{Segments, max_lsn}
use ingest4x.Wal.Checkpoint.{
  WalCheckpoint, CheckpointFormat, CheckpointFiles, WriteFault, before_rename, after_rename,
}

abbrev pub first_segment_id : ℕ
first_segment_id = 1

abbrev node_char : ℕ → Bool
node_char b =
    (leb 48 b && leb b 57)
    || (leb 65 b && leb b 90)
    || (leb 97 b && leb b 122)
    || b == 95
    || b == 45
    || b == 46

-- `chars().all(..)`: the bytes of a character outside ASCII are no such bytes.
all_node_chars : Text → Bool
all_node_chars [] = true
all_node_chars (b ∷ bs) = let rest = all_node_chars bs in node_char b && rest

pub validate_node_id : Text → Result IoError (Unit {0})
validate_node_id t =
    guard (all_node_chars t) (input_error "wal node_id can only contain [A-Za-z0-9_.-]" [])

-- A temporary file is renamed, as for the checkpoint.
pub write_node_id_file :
    Text → Option WriteFault → CheckpointFiles → Result IoError (Unit {0}) × CheckpointFiles
write_node_id_file t none d = (ok tt, record d { node_id_file = some (t ++ codes "\n") })
write_node_id_file t (some (before_rename e)) d = (err e, d)
write_node_id_file t (some (after_rename e)) d =
    (err e, record d { node_id_file = some (t ++ codes "\n") })

abbrev named :
    Text → Result IoError (Unit {0}) × CheckpointFiles → Result IoError Text × CheckpointFiles
named t (ok x, d) = (ok t, d)
named t (err e, d) = (err e, d)

abbrev checked : Text → CheckpointFiles → Result IoError Text × CheckpointFiles
checked t d = (validate_node_id t >> ok t, d)

-- `uuid` is the random id of `Uuid::new_v4`.
new_node_id :
    Text → Option WriteFault → Option Text → CheckpointFiles → Result IoError Text × CheckpointFiles
new_node_id uuid fault none d = named uuid (write_node_id_file uuid fault d)
new_node_id uuid fault (some t) d =
    if is_empty (trim t) then named uuid (write_node_id_file uuid fault d) else checked (trim t) d

abbrev agreed :
    Text → Option WriteFault → Option Text → CheckpointFiles → Result IoError Text × CheckpointFiles
agreed t fault none d = named t (write_node_id_file t fault d)
agreed t fault (some existing) d = (
  guard (text_eq (trim existing) t) (
        input_error "configured wal node_id '"
          (t ++ codes "' conflicts with persisted node_id '" ++ trim existing ++ codes "'"))
      >> ok t,
  d,
)

configured_node_id :
    Text → Option WriteFault → CheckpointFiles → Result IoError Text × CheckpointFiles
configured_node_id t fault d = elim (validate_node_id t) [
  | err e ↦ (err e, d)
  | ok x ↦ agreed t fault d.node_id_file d
]

pub resolve_node_id :
    Option Text → Text → Option WriteFault → CheckpointFiles → Result IoError Text × CheckpointFiles
resolve_node_id none uuid fault d = new_node_id uuid fault d.node_id_file d
resolve_node_id (some t) uuid fault d =
    if is_empty (trim t)
    then new_node_id uuid fault d.node_id_file d
    else configured_node_id (trim t) fault d

module _ (f : CheckpointFormat) where
  -- The checkpoint that the writer reads; the order of the checks is not that of the replay.
  pub read_checkpoint_file : Text → Text → Bytes → Result IoError WalCheckpoint
  read_checkpoint_file path node_id bs = do
    c ← map_err (λ e. data_error "" e) (f.from_json bs)
    guard (text_eq c.node_id node_id) (
        data_error "checkpoint node_id mismatch: checkpoint="
          (c.node_id ++ codes " current=" ++ node_id))
    guard (not (is_some c.sink_id)) (data_error "checkpoint sink_id mismatch: " path)
    text ← map_err other_error (f.checksum_json c)
    guard (c.checksum == f.crc text) (data_error "checkpoint checksum mismatch: " path)
    ok c

  pub read_pipeline_checkpoint :
      Text → Text → CheckpointFiles → Result IoError (Option WalCheckpoint)
  read_pipeline_checkpoint path node_id d = elim (d.checkpoint_file) [
    | none ↦ ok none
    | some bs ↦ read_checkpoint_file path node_id bs >>= λ c. ok (some c)
  ]

  pub read_checkpoint_lsn : Text → Text → CheckpointFiles → Result IoError ℕ
  read_checkpoint_lsn path node_id d = read_pipeline_checkpoint path node_id d >>= λ o.
      ok (elim o [ none ↦ 0 | some c ↦ c.checkpoint_lsn ])

-- `last_segment_id`
unfoldable pub last_segment_id : Segments → Option ℕ
last_segment_id [] = none
last_segment_id ((id, file) ∷ ss) = elim (last_segment_id ss) [
  | none ↦ some id
  | some m ↦ some (max id m)
]

abbrev pub next_segment : Option WalCheckpoint → Option ℕ
next_segment none = none
next_segment (some c) = some (wrap_add c.checkpoint_segment_id 1)

abbrev pub larger : Option ℕ → Option ℕ → ℕ
larger none none = first_segment_id
larger none (some m) = m
larger (some n) none = n
larger (some n) (some m) = max n m

unfoldable pub recover_active_segment_id : Segments → Option WalCheckpoint → ℕ
recover_active_segment_id segments checkpoint =
    larger (last_segment_id segments) (next_segment checkpoint)

-- The largest LSN of all files.
log_max_lsn : Codec → Text → Segments → Result IoError ℕ
log_max_lsn c dir [] = ok 0
log_max_lsn c dir ((id, file) ∷ ss) = do
  scan ← scan_segment c (segment_path dir id) file
  m ← log_max_lsn c dir ss
  ok (max (max_lsn scan.records) m)

abbrev pub checkpoint_lsn_of : Option WalCheckpoint → ℕ
checkpoint_lsn_of none = 0
checkpoint_lsn_of (some k) = k.checkpoint_lsn

unfoldable pub recover_next_lsn : Codec → Text → Segments → Option WalCheckpoint → Result IoError ℕ
unfolding log_max_lsn
recover_next_lsn c dir segments checkpoint =
    log_max_lsn c dir segments >>= λ m. ok (wrap_add (max m (checkpoint_lsn_of checkpoint)) 1)
