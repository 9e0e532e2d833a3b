-- ===== src/Wal/Writer/Disk.antt =====
-- What the writer of src/wal/mod.rs does to the segment files: `create_segment_file`,
-- `ensure_segment_file`, `ensure_wal_disk_space`, the append of a frame, `sync_segment`, `truncate_after`.
use ingest4x.Prelude.{
  ℕ, zero, suc, ◌+◌, ◌-◌, ◌&&◌, not, Option, none, some, ◌++◌, length, take, replicate, ltb, ◌==◌,
  if◌then◌else◌,
}
use ingest4x.Bytes.{Bytes}
use ingest4x.Text.{codes, text_eq}
use ingest4x.Result.{Result, ok, err, guard, IoError, not_found, data_error, other_error}
use ingest4x.Wal.Segment.{
  decimal, segment_path, segment_header_len, SegmentHeader, serialize_segment_header,
  read_segment_header,
}
use ingest4x.Wal.Files.{find_file, put_file, drop_file}
use ingest4x.Wal.Writer.State.{WriterEnv, Exec, continue, ◌>>=◌, ◌>>◌, lift, modify, io}

-- The error of a path that names no file.
pub missing_file : IoError
missing_file = record { kind = not_found; message = codes "No such file or directory" }

abbrev pub set_file : ℕ → Bytes → Exec (Unit {0})
set_file id f = modify (λ w. record w { segments = put_file id f w.segments })

abbrev pub unset_file : ℕ → Exec (Unit {0})
unset_file id = modify (λ w. record w { segments = drop_file id w.segments })

-- The file of an id that is open, or an error.
abbrev pub found : {A : Type 0} → Option Bytes → (Bytes → Exec A) → Exec A
found none k = lift (err missing_file)
found (some f) k = k f

-- `file.set_len(n)`
abbrev pub set_len : ℕ → Bytes → Bytes
set_len n file = take n file ++ replicate (n - length file) 0

module _ (env : WriterEnv) where
  unfoldable pub ensure_wal_disk_space : ℕ → Exec (Unit {0})
  ensure_wal_disk_space estimated w =
      if env.min_free_bytes == 0
      then (ok tt, w)
      else (continue (env.available_space w.calls)
          (λ available. lift (
            guard (not (ltb (available - estimated) env.min_free_bytes)) (
              other_error (
                codes "wal disk space is insufficient: available_bytes="
                ++ (decimal available
                    ++ (codes " estimated_wal_bytes="
                        ++ (decimal estimated
                            ++ (codes " min_free_bytes=" ++ decimal env.min_free_bytes))))))))
          (record w { calls = w.calls + 1 }))

  -- The temporary file is removed, made, written and synced, then renamed; its name is no segment's.
  unfoldable pub create_segment_file : ℕ → ℕ → Exec (Unit {0})
  create_segment_file id start_lsn w =
      (io env
          >> (lift
                (serialize_segment_header env.codec (env.now_ms w.calls) id env.node_id start_lsn)
              >>= λ header. io env >> (set_file id header >> io env)))
        w

  abbrev pub same_segment_id : ℕ → SegmentHeader → Result IoError (Unit {0})
  same_segment_id id h = guard (h.segment_id == id) (
      data_error "wal segment id mismatch: expected " (
        decimal id
        ++ (codes ", got " ++ (decimal h.segment_id ++ (codes ": " ++ segment_path env.dir id)))))

  abbrev pub same_node_id : ℕ → SegmentHeader → Result IoError (Unit {0})
  same_node_id id h =
      guard (text_eq h.node_id env.node_id)
        (data_error "wal segment node_id mismatch: " (segment_path env.dir id))

  -- A segment that holds nothing but its header, and names another LSN, is made anew.
  abbrev pub made_anew : ℕ → ℕ → Bytes → SegmentHeader → Exec (Unit {0})
  made_anew id start_lsn file h =
      if length file == segment_header_len && not (h.start_lsn == start_lsn)
      then (io env >> (unset_file id >> (io env >> create_segment_file id start_lsn)))
      else io env

  abbrev pub checked_segment : ℕ → ℕ → Bytes → SegmentHeader × Bytes → Exec (Unit {0})
  checked_segment id start_lsn file (h, rest) =
      lift (same_segment_id id h) >> (lift (same_node_id id h) >> made_anew id start_lsn file h)

  abbrev pub ensured : ℕ → ℕ → Option Bytes → Exec (Unit {0})
  ensured id start_lsn none = create_segment_file id start_lsn
  ensured id start_lsn (some file) =
      io env
      >> (lift (read_segment_header env.codec (segment_path env.dir id) file)
          >>= checked_segment id start_lsn file)

  unfoldable pub ensure_segment_file : ℕ → ℕ → Exec (Unit {0})
  ensure_segment_file id start_lsn w = ensured id start_lsn (find_file id w.segments) w

  -- `write_all` on a file opened for appending
  abbrev pub wrote : ℕ → Bytes → Bytes → Option IoError → Exec (Unit {0})
  wrote id file bytes none w =
      (ok tt, record w { segments = put_file id (file ++ bytes) w.segments; calls = w.calls + 1 })
  wrote id file bytes (some e) w = (
    err e,
    record w {
      segments = put_file id (file ++ take (env.written_part w.calls) bytes) w.segments;
      calls = w.calls + 1;
    },
  )

  unfoldable pub append_bytes : ℕ → Bytes → Exec (Unit {0})
  append_bytes id bytes w =
      (io env >> λ w1.
      found (find_file id w1.segments) (λ file w2. wrote id file bytes (env.io_error w2.calls) w2)
        w1)
        w

  unfoldable pub sync_segment : ℕ → Exec (Unit {0})
  sync_segment id w = (found (find_file id w.segments) (λ file. io env)) w

  -- `remove_file`, where a missing file is no error
  abbrev pub removed : ℕ → Option IoError → Exec (Unit {0})
  removed id none w = (ok tt, record w { segments = drop_file id w.segments; calls = w.calls + 1 })
  removed id (some e) w = (err e, record w { calls = w.calls + 1 })

  abbrev pub remove_existing : ℕ → Option Bytes → Exec (Unit {0})
  remove_existing id none w = (ok tt, w)
  remove_existing id (some f) w = removed id (env.io_error w.calls) w

  -- `n` files from `id` on
  unfoldable pub remove_stale : ℕ → ℕ → Exec (Unit {0})
  remove_stale zero id w = (ok tt, w)
  remove_stale (suc n) id w =
      ((λ w1. remove_existing id (find_file id w1.segments) w1) >> remove_stale n (id + 1)) w

  unfoldable pub truncate_after : ℕ → ℕ → ℕ → Exec (Unit {0})
  truncate_after segment offset current w =
      (io env >> (λ w1.
          found (find_file segment w1.segments)
            (λ file.
              io env
              >> (set_file segment (set_len offset file)
                  >> (io env >> (remove_stale (current - segment) (segment + 1) >> io env))))
            w1))
        w
