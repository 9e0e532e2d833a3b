-- ===== src/Wal/Checkpoint.antt =====
-- The checkpoint file: `WalCheckpoint` and the functions on it in src/wal/replay.rs, with the checks
-- that src/wal/mod.rs makes of the same file. The JSON text is serde_json's.
pub mod RoundTrip
use ingest4x.Prelude.{
  ℕ, ◌+◌, ◌≡◌, Bool, true, false, ◌&&◌, ◌||◌, not, Option, none, some, List, [], ◌++◌, ltb, ◌==◌,
  is_some, if◌then◌else◌,
}
use ingest4x.Bytes.{Bytes}
use ingest4x.Text.{Text, codes, text_eq, trim}
use ingest4x.Result.{
  Result, ok, err, ◌>>=◌, ◌>>◌, guard, map_err, ok_or, IoError, ErrorKind, not_found, data_error,
  other_error,
}
use ingest4x.Wal.Record.{WalPosition, WalBounds}

pub record WalCheckpoint : Type 0 where
  pub version : ℕ
  pub node_id : Text
  pub sink_id : Option Text
  pub checkpoint_lsn : ℕ
  pub checkpoint_segment_id : ℕ
  pub checkpoint_segment_offset : ℕ
  pub updated_at : ℕ
  pub checksum : ℕ

-- serde_json on the two structures and crc32fast; an error is its text. The checksum structure has
-- all fields of a checkpoint but the checksum.
pub record CheckpointFormat : Type 0 where
  pub to_json : WalCheckpoint → Result Text Bytes
  pub from_json : Bytes → Result Text WalCheckpoint
  pub checksum_json : WalCheckpoint → Result Text Bytes
  pub crc : Bytes → ℕ

-- What serde promises: a structure that was written is read back, and the text of the checksum
-- structure does not depend on the field that it lacks.
pub record IsFormat (f : CheckpointFormat) : Type 0 where
  pub round_trip : (c : WalCheckpoint) (bs : Bytes) → f.to_json c ≡ ok bs → f.from_json bs ≡ ok c
  pub no_checksum :
      (c : WalCheckpoint) (n : ℕ) → f.checksum_json (record c { checksum = n }) ≡ f.checksum_json c

-- The two small files of the directory, as far as they exist.
pub record CheckpointFiles : Type 0 where
  pub checkpoint_file : Option Bytes
  pub node_id_file : Option Text

pub data AutoOffsetReset : Type 0 where
  earliest latest : AutoOffsetReset

-- A failure while the checkpoint is written: the rename puts the new file in place at once.
pub data WriteFault : Type 0 where
  before_rename after_rename : IoError → WriteFault

pub position_of : WalCheckpoint → WalPosition
position_of c = record {
  lsn = c.checkpoint_lsn;
  segment = c.checkpoint_segment_id;
  offset = c.checkpoint_segment_offset;
}

pub checkpoint_before_wal_floor : WalPosition → WalBounds → Bool
checkpoint_before_wal_floor p b = elim (b.floor) [
  | none ↦ false
  | some f ↦ ltb p.segment f.segment || (p.segment == f.segment && ltb p.offset f.offset)
]

module _ (f : CheckpointFormat) where
  unfoldable pub compute_checksum : WalCheckpoint → Result IoError ℕ
  compute_checksum c = map_err other_error (f.checksum_json c) >>= λ bs. ok (f.crc bs)

  unfoldable pub new_checkpoint : WalPosition → Text → ℕ → Result IoError WalCheckpoint
  new_checkpoint p node_id now = do
    let c : WalCheckpoint = record {
      version = 1;
      node_id = node_id;
      sink_id = none;
      checkpoint_lsn = p.lsn;
      checkpoint_segment_id = p.segment;
      checkpoint_segment_offset = p.offset;
      updated_at = now;
      checksum = 0;
    }
    checksum ← compute_checksum c
    ok (record c { checksum = checksum })

  unfoldable pub read_node_id : CheckpointFiles → Result IoError Text
  read_node_id d =
      ok_or d.node_id_file
        (record { kind = not_found; message = codes "No such file or directory" })
      >>= λ t. ok (trim t)

  pub validate_checkpoint : CheckpointFiles → WalCheckpoint → Text → Result IoError (Unit {0})
  validate_checkpoint d c path = do
    expected ← compute_checksum c
    guard (c.checksum == expected) (data_error "checkpoint checksum mismatch: " path)
    node_id ← read_node_id d
    guard (text_eq c.node_id node_id) (
        data_error "checkpoint node_id mismatch: checkpoint="
          (c.node_id ++ (codes " current=" ++ node_id)))

  abbrev written_file :
      Option WriteFault → Bytes → CheckpointFiles → Result IoError (Unit {0}) × CheckpointFiles
  written_file none bs d = (ok tt, record d { checkpoint_file = some bs })
  written_file (some (before_rename e)) bs d = (err e, d)
  written_file (some (after_rename e)) bs d = (err e, record d { checkpoint_file = some bs })

  abbrev store :
      Result IoError Bytes
      → Option WriteFault
      → CheckpointFiles
      → Result IoError (Unit {0}) × CheckpointFiles
  store (err e) fault d = (err e, d)
  store (ok bs) fault d = written_file fault bs d

  unfoldable pub write_checkpoint :
      WalPosition
      → ℕ
      → Option WriteFault
      → CheckpointFiles
      → Result IoError (Unit {0}) × CheckpointFiles
  write_checkpoint p now fault d =
      store
        (do
          node_id ← read_node_id d
          c ← new_checkpoint p node_id now
          map_err other_error (f.to_json c))
        fault d

  abbrev after_reset :
      WalPosition
      → Result IoError (Unit {0}) × CheckpointFiles
      → Result IoError (Option WalPosition) × CheckpointFiles
  after_reset p (ok x, d) = (ok (some p), d)
  after_reset p (err e, d) = (err e, d)

  pub reset_checkpoint :
      AutoOffsetReset
      → WalBounds
      → ℕ
      → Option WriteFault
      → CheckpointFiles
      → Result IoError (Option WalPosition) × CheckpointFiles
  reset_checkpoint earliest b now fault d = (ok none, d)
  reset_checkpoint latest b now fault d = elim (b.tail) [
    | none ↦ (ok none, d)
    | some p ↦ after_reset p (write_checkpoint p now fault d)
  ]

  -- The checks of an existing file.
  pub load_checkpoint : CheckpointFiles → Bytes → Text → Result IoError WalCheckpoint
  load_checkpoint d bs path = do
    c ← map_err (λ e. data_error "" e) (f.from_json bs)
    validate_checkpoint d c path
    guard (not (is_some c.sink_id)) (data_error "checkpoint sink_id mismatch: " path)
    ok c

  loaded :
      Result IoError WalCheckpoint
      → AutoOffsetReset
      → WalBounds
      → ℕ
      → Option WriteFault
      → CheckpointFiles
      → Result IoError (Option WalPosition) × CheckpointFiles
  loaded (err e) reset b now fault d = (err e, d)
  loaded (ok c) reset b now fault d =
      if checkpoint_before_wal_floor (position_of c) b
      then reset_checkpoint reset b now fault d
      else (ok (some (position_of c)), d)

  read_file :
      Option Bytes
      → Text
      → AutoOffsetReset
      → WalBounds
      → ℕ
      → Option WriteFault
      → CheckpointFiles
      → Result IoError (Option WalPosition) × CheckpointFiles
  read_file none path reset b now fault d = reset_checkpoint reset b now fault d
  read_file (some bs) path reset b now fault d =
      loaded (load_checkpoint d bs path) reset b now fault d

  pub read_checkpoint :
      Text
      → AutoOffsetReset
      → WalBounds
      → ℕ
      → Option WriteFault
      → CheckpointFiles
      → Result IoError (Option WalPosition) × CheckpointFiles
  unfolding loaded read_file
  read_checkpoint path reset b now fault d = read_file d.checkpoint_file path reset b now fault d
