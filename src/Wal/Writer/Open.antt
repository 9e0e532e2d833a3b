-- ===== src/Wal/Writer/Open.antt =====
-- `WalWriter::new` of src/wal/mod.rs: the writer that a start makes from the directory, and what
-- `check_ready` and `snapshot` tell of it. The lock file is not modelled.
use ingest4x.Prelude.{ℕ, ◌+◌, ◌-◌, Bool, not, Option, [], max, ltb}
use ingest4x.Text.{Text}
use ingest4x.Result.{Result, ok, err, map_err, IoError, input_error}
use ingest4x.Wal.Segment.{segment_path, segment_header_len}
use ingest4x.Wal.Scan.{repair_segment_tail}
use ingest4x.Wal.Log.{Segments}
use ingest4x.Wal.Checkpoint.{WalCheckpoint, CheckpointFormat, CheckpointFiles, WriteFault}
use ingest4x.Wal.Startup.{
  resolve_node_id, read_pipeline_checkpoint, read_checkpoint_lsn, recover_active_segment_id,
  recover_next_lsn,
}
use ingest4x.Wal.Files.{find_file}
use ingest4x.Wal.Writer.State.{
  WriterEnv, WriterState, Exec, continue, ◌>>=◌, ◌>>◌, pure, lift, modify, io,
}
use ingest4x.Wal.Writer.Disk.{set_file, found, ensure_segment_file, ensure_wal_disk_space}

-- The fields of `WalSettings` that the writer reads
pub record WalSettings : Type 0 where
  pub wal_dir : Text
  pub wal_node_id : Option Text
  pub flush_interval : Text
  pub write_flush_records : ℕ
  pub write_no_sync : Bool
  pub write_segment_max_bytes : ℕ
  pub write_min_free_bytes : ℕ

pub record WalSnapshot : Type 0 where
  pub snapshot_node_id : Text
  pub ready : Bool
  pub snapshot_no_sync : Bool
  pub available_bytes : ℕ
  pub snapshot_min_free_bytes : ℕ
  pub active_segment_id : ℕ
  pub active_segment_bytes : ℕ
  pub max_lsn : ℕ
  pub checkpoint_lsn : ℕ

-- No writer yet; the files of the directory are there.
abbrev pub closed : Segments → ℕ → WriterState
closed segments calls = record {
  segment_id = 0;
  offset = 0;
  next_lsn = 0;
  buffered = [];
  segments = segments;
  responses = [];
  channels = 0;
  calls = calls;
}

-- The settings with the least sizes, on what the outside world answers
abbrev pub configured : WriterEnv → WalSettings → Text → WriterEnv
configured outside s node_id = record outside {
  dir = s.wal_dir;
  node_id = node_id;
  segment_max_bytes = max s.write_segment_max_bytes (segment_header_len + 1);
  flush_records = max s.write_flush_records 1;
  no_sync = s.write_no_sync;
  min_free_bytes = s.write_min_free_bytes;
}

module _ (env : WriterEnv) where
  -- The bytes of the active segment, cut behind its last whole frame; `set_len` and `sync_data`
  abbrev pub repair_active : ℕ → Exec ℕ
  repair_active id w =
      found (find_file id w.segments)
        (λ file. lift (repair_segment_tail env.codec (segment_path env.dir id) file) >>= λ r.
          io env >> (set_file id (r.1) >> (io env >> pure (r.0))))
        w

  abbrev pub set_writer : ℕ → ℕ → ℕ → WriterState → WriterState
  set_writer id next offset w = record w {
    segment_id = id;
    offset = offset;
    next_lsn = next;
    buffered = [];
  }

  -- `interval` is what `humantime::parse_duration` answers.
  unfoldable pub open_writer : Option WalCheckpoint → Result Text ℕ → Exec (Unit {0})
  open_writer checkpoint interval w =
      let id = recover_active_segment_id w.segments checkpoint in
      (lift (recover_next_lsn env.codec env.dir w.segments checkpoint) >>= λ next.
      ensure_segment_file env id next
      >> (repair_active id >>= λ offset.
          ensure_wal_disk_space env 0
          >> (lift (map_err (λ e. input_error "invalid wal.write.flush_interval: " e) interval)
              >>= λ d. modify (set_writer id next offset))))
        w

  pub check_ready : Exec (Unit {0})
  check_ready = ensure_wal_disk_space env 0

  abbrev pub wal_snapshot : ℕ → ℕ → WriterState → WalSnapshot
  wal_snapshot available lsn w = record {
    snapshot_node_id = env.node_id;
    ready = not (ltb available env.min_free_bytes);
    snapshot_no_sync = env.no_sync;
    available_bytes = available;
    snapshot_min_free_bytes = env.min_free_bytes;
    active_segment_id = w.segment_id;
    active_segment_bytes = w.offset;
    max_lsn = w.next_lsn - 1;
    checkpoint_lsn = lsn;
  }

  pub snapshot : CheckpointFormat → Text → CheckpointFiles → Exec WalSnapshot
  snapshot format path files w =
      (lift (read_checkpoint_lsn format path env.node_id files) >>= λ lsn w1.
      continue (env.available_space w1.calls)
        (λ available w2. (ok (wal_snapshot available lsn w2), w2))
        (record w1 { calls = w1.calls + 1 }))
        w

module _ (format : CheckpointFormat) (path : Text) (outside : WriterEnv) (s : WalSettings) where
  abbrev opened :
      Option WalCheckpoint
      → Result Text ℕ
      → Text
      → Segments
      → CheckpointFiles
      → Result IoError (WriterEnv × WriterState) × Segments × CheckpointFiles
  opened checkpoint interval node_id segments files =
      let env = configured outside s node_id in
      let r = open_writer env checkpoint interval (closed segments 0) in
      (elim (r.0) [ ok u ↦ ok (env, r.1) | err e ↦ err e ], (r.1).segments, files)

  abbrev with_node_id :
      Result Text ℕ
      → Segments
      → Result IoError Text × CheckpointFiles
      → Result IoError (WriterEnv × WriterState) × Segments × CheckpointFiles
  with_node_id interval segments (err e, files) = (err e, segments, files)
  with_node_id interval segments (ok node_id, files) =
      elim (read_pipeline_checkpoint format path node_id files) [
        | err e ↦ (err e, segments, files)
        | ok checkpoint ↦ opened checkpoint interval node_id segments files
      ]

  -- The directory exists. `uuid` and `fault` are for `resolve_node_id`.
  pub new_with_active_sinks :
      Text
      → Option WriteFault
      → Result Text ℕ
      → Segments
      → CheckpointFiles
      → Result IoError (WriterEnv × WriterState) × Segments × CheckpointFiles
  new_with_active_sinks uuid fault interval segments files =
      with_node_id interval segments (resolve_node_id s.wal_node_id uuid fault files)
