-- ===== src/Wal/Writer/Kept.antt =====
-- What a start keeps: the segment files besides the active one, and the whole frames of the active one.
use ingest4x.Prelude.{
  ℕ, ◌+◌, ◌≡◌, refl, Bool, true, false, ◌&&◌, not, Option, none, some, ◌++◌, length, ◌==◌, ==_refl,
  if◌then◌else◌,
}
use ingest4x.Bytes.{Bytes}
use ingest4x.Text.{Text}
use ingest4x.Result.{Result, map_err, input_error}
use ingest4x.Wal.Record.{IsCodec}
use ingest4x.Wal.Checkpoint.{WalCheckpoint}
use ingest4x.Wal.Segment.{segment_path, segment_header_len, SegmentHeader, read_segment_header}
use ingest4x.Wal.Scan.{repair_segment_tail}
use ingest4x.Wal.Scan.Image.{Writes, image, Tail}
use ingest4x.Wal.Scan.Recovery.{IsSegment, repair_segment_tail-image}
use ingest4x.Wal.Startup.{recover_active_segment_id, recover_next_lsn}
use ingest4x.Wal.Files.{find_file, put_file, drop_file, find_file-put_file, find_file-drop_file}
use ingest4x.Wal.Writer.State.{WriterEnv, WriterState, Exec, ◌>>=◌, ◌>>◌, pure, lift, modify, io}
use ingest4x.Wal.Writer.Disk.{
  set_file, unset_file, create_segment_file, same_segment_id, same_node_id, made_anew,
  checked_segment, ensured, ensure_segment_file, ensure_wal_disk_space,
}
use ingest4x.Wal.Writer.Ensures.{Ensures, bind-Ensures, io-then, lift-then, found-then, io_last}
use ingest4x.Wal.Writer.Steps.{create_segment_file-Ensures, ensure_wal_disk_space-Ensures}
use ingest4x.Wal.Writer.Open.{repair_active, set_writer, open_writer}

abbrev pub Any : WriterState → Type 0
Any t = Unit {0}

-- The file of segment `s` holds `f`.
abbrev pub Here : ℕ → Bytes → Unit {0} → WriterState → Type 0
Here s f u t = find_file s t.segments ≡ some f

module _ (env : WriterEnv) (id s : ℕ) (f g : Bytes) where
  -- From the two steps on the files of a start to the start; the first leaves `f`, the second `g`.
  pub open_writer-Here :
      (checkpoint : Option WalCheckpoint) (interval : Result Text ℕ) (w : WriterState)
      → recover_active_segment_id w.segments checkpoint ≡ id
      → ((next : ℕ)
          → Ensures
              (Here s f)
              Any
              (ensure_segment_file env id next w).0
              (ensure_segment_file env id next w).1)
      → ((t : WriterState)
          → Here s f tt t
          → Ensures (λ n. Here s g tt) Any (repair_active env id t).0 (repair_active env id t).1)
      → Ensures
          (Here s g)
          Any
          (open_writer env checkpoint interval w).0
          (open_writer env checkpoint interval w).1
  unfolding open_writer
  open_writer-Here checkpoint interval w e ensure repair = rw (e) (
      lift-then (Here s g) Any (recover_next_lsn env.codec env.dir w.segments checkpoint)
        (λ next. ensure_segment_file env id next >> (repair_active env id >>= spaced next)) w tt
        (λ next q.
          bind-Ensures (Here s g) Any (Here s f) (ensure_segment_file env id next)
            (λ u. repair_active env id >>= spaced next) w (ensure next)
            (λ u t h.
              bind-Ensures (Here s g) Any (λ n. Here s g tt) (repair_active env id) (spaced next) t
                (repair t h)
                (λ offset x k.
                  bind-Ensures (Here s g) Any (Here s g) (ensure_wal_disk_space env 0)
                    (λ v. timed next offset) x
                    (ensure_wal_disk_space-Ensures env (Here s g) Any 0 x k k tt)
                    (λ v y m.
                      lift-then (Here s g) Any
                        (map_err (λ e. input_error "invalid wal.write.flush_interval: " e) interval)
                        (λ d. modify (set_writer env id next offset)) y tt (λ d e. m))))))
    where
      timed : ℕ → ℕ → Exec (Unit {0})
      timed next offset =
          lift (map_err (λ e. input_error "invalid wal.write.flush_interval: " e) interval) >>= λ d.
          modify (set_writer env id next offset)

      spaced : ℕ → ℕ → Exec (Unit {0})
      spaced next offset = ensure_wal_disk_space env 0 >> timed next offset

module _ (env : WriterEnv) (id s : ℕ) (f : Bytes) (apart : (id == s) ≡ false) where
  created-Here :
      (next : ℕ) (w : WriterState)
      → Here s f tt w
      → Ensures
          (Here s f)
          Any
          (create_segment_file env id next w).0
          (create_segment_file env id next w).1
  created-Here next w h =
      create_segment_file-Ensures env (Here s f) Any id next w (λ n. tt)
        (λ hb e n. (rw (find_file-put_file id s hb w.segments, apart) h, tt))

  made_anew-Here :
      (next : ℕ) (file : Bytes) (hd : SegmentHeader) (w : WriterState)
      → Here s f tt w
      → Ensures
          (Here s f)
          Any
          (made_anew env id next file hd w).0
          (made_anew env id next file hd w).1
  made_anew-Here next file hd w h =
      go ((length file == segment_header_len) && not (hd.start_lsn == next))
    where
      anew : Exec (Unit {0})
      anew = io env >> (unset_file id >> (io env >> create_segment_file env id next))

      go :
          (b : Bool)
          → Ensures
              (Here s f)
              Any
              ((if b then anew else io env) w).0
              ((if b then anew else io env) w).1
      go true =
          io-then (Here s f) Any env (unset_file id >> (io env >> create_segment_file env id next))
            w tt
            (io-then (Here s f) Any env (create_segment_file env id next)
              (record w { segments = drop_file id w.segments; calls = w.calls + 1 }) tt
              (created-Here next
                (record w { segments = drop_file id w.segments; calls = (w.calls + 1) + 1 })
                (rw (find_file-drop_file id s w.segments, apart) h)))
      go false = io_last env (Here s f) Any w h (λ x. tt)

  -- A start does not touch the file of another segment.
  pub ensure_segment_file-other :
      (next : ℕ) (w : WriterState)
      → Here s f tt w
      → Ensures
          (Here s f)
          Any
          (ensure_segment_file env id next w).0
          (ensure_segment_file env id next w).1
  unfolding ensure_segment_file
  ensure_segment_file-other next w h = go (find_file id w.segments)
    where
      go :
          (o : Option Bytes)
          → Ensures (Here s f) Any (ensured env id next o w).0 (ensured env id next o w).1
      go none = created-Here next w h
      go (some file) =
          io-then (Here s f) Any env
            (lift (read_segment_header env.codec (segment_path env.dir id) file)
              >>= checked_segment env id next file)
            w tt
            (lift-then (Here s f) Any (read_segment_header env.codec (segment_path env.dir id) file)
              (checked_segment env id next file) (record w { calls = w.calls + 1 }) tt
              (λ a e.
                lift-then (Here s f) Any (same_segment_id env id a.0)
                  (λ u. lift (same_node_id env id a.0) >> made_anew env id next file a.0)
                  (record w { calls = w.calls + 1 }) tt
                  (λ u e'.
                    lift-then (Here s f) Any (same_node_id env id a.0)
                      (λ v. made_anew env id next file a.0) (record w { calls = w.calls + 1 }) tt
                      (λ v e''.
                        made_anew-Here next file (a.0) (record w { calls = w.calls + 1 }) h))))

  pub repair_active-other :
      (w : WriterState)
      → Here s f tt w
      → Ensures (λ (n : ℕ). Here s f tt) Any (repair_active env id w).0 (repair_active env id w).1
  repair_active-other w h = go (find_file id w.segments)
    where
      P : ℕ → WriterState → Type 0
      P n = Here s f tt

      cut : Bytes → Exec ℕ
      cut file = lift (repair_segment_tail env.codec (segment_path env.dir id) file) >>= λ r.
          io env >> (set_file id (r.1) >> (io env >> pure (r.0)))

      go :
          (o : Option Bytes)
          → Ensures P Any
              (ingest4x.Wal.Writer.Disk.found o cut w).0
              (ingest4x.Wal.Writer.Disk.found o cut w).1
      go none = tt
      go (some file) =
          lift-then P Any (repair_segment_tail env.codec (segment_path env.dir id) file)
            (λ r. io env >> (set_file id (r.1) >> (io env >> pure (r.0)))) w tt
            (λ r e. io-then P Any env (set_file id (r.1) >> (io env >> pure (r.0))) w tt (
              io-then P Any env (pure (r.0))
                (record w { segments = put_file id (r.1) w.segments; calls = w.calls + 1 }) tt
                (rw (find_file-put_file id s (r.1) w.segments, apart) h)))

module _ (env : WriterEnv) (law : IsCodec env.codec) (id start_lsn : ℕ) (hb tail : Bytes)
    (ws : Writes) (is : IsSegment env.codec hb id start_lsn ws) (is_tail : Tail env.codec tail)
    (longer : (length (hb ++ (image ws ++ tail)) == segment_header_len) ≡ false) where
  abbrev whole : Bytes
  whole = hb ++ (image ws ++ tail)

  abbrev kept : Bytes
  kept = hb ++ image ws

  abbrev path : Text
  path = segment_path env.dir id

  checked-Here :
      (next : ℕ) (a : SegmentHeader × Bytes) (w : WriterState)
      → Here id whole tt w
      → Ensures
          (Here id whole)
          Any
          (checked_segment env id next whole a w).0
          (checked_segment env id next whole a w).1
  checked-Here next (hd, rest) w h =
      lift-then (Here id whole) Any (same_segment_id env id hd)
        (λ u. lift (same_node_id env id hd) >> made_anew env id next whole hd) w tt
        (λ u e.
          lift-then (Here id whole) Any (same_node_id env id hd)
            (λ v. made_anew env id next whole hd) w tt
            (λ v e'. rw (longer) (io_last env (Here id whole) Any w h (λ x. tt))))

  -- The active file is kept by the check, and the repair cuts off its torn frame.
  pub ensure_segment_file-active :
      (next : ℕ) (w : WriterState)
      → Here id whole tt w
      → Ensures
          (Here id whole)
          Any
          (ensure_segment_file env id next w).0
          (ensure_segment_file env id next w).1
  unfolding ensure_segment_file
  ensure_segment_file-active next w h = rw (h) (
      io-then (Here id whole) Any env
        (lift (read_segment_header env.codec path whole) >>= checked_segment env id next whole) w tt
        (lift-then (Here id whole) Any (read_segment_header env.codec path whole)
          (checked_segment env id next whole) (record w { calls = w.calls + 1 }) tt
          (λ a e. checked-Here next a (record w { calls = w.calls + 1 }) h)))

  pub repair_active-active :
      (w : WriterState)
      → Here id whole tt w
      → Ensures
          (λ (n : ℕ). Here id kept tt)
          Any
          (repair_active env id w).0
          (repair_active env id w).1
  repair_active-active w h = found-then P Any (find_file id w.segments) whole cut w h (
      rw (repair_segment_tail-image env.codec path hb id start_lsn ws tail law is is_tail) (
        io-then P Any env (set_file id kept >> (io env >> pure (512 + length (image ws)))) w tt (
          io-then P Any env (pure (512 + length (image ws)))
            (record w { segments = put_file id kept w.segments; calls = w.calls + 1 }) tt
            (rw (find_file-put_file id id kept w.segments, ==_refl id) refl))))
    where
      P : ℕ → WriterState → Type 0
      P n = Here id kept tt

      cut : Bytes → Exec ℕ
      cut file = lift (repair_segment_tail env.codec path file) >>= λ r.
          io env >> (set_file id (r.1) >> (io env >> pure (r.0)))
