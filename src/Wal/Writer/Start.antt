-- ===== src/Wal/Writer/Start.antt =====
-- That a start gives a writer whose state stands: `WalWriter::new` of src/wal/mod.rs.
use ingest4x.Prelude.{ℕ, ◌<◌, ◌^◌, ◌≡◌, ◌⊎◌, refl, true, false, Option, none, [], ◌∷◌, ◌==◌, arith}
use ingest4x.Text.{Text, is_utf8}
use ingest4x.Result.{Result, ok, map_err, input_error}
use ingest4x.Wal.Record.{IsCodec}
use ingest4x.Wal.Log.{Segments}
use ingest4x.Wal.Checkpoint.{WalCheckpoint}
use ingest4x.Wal.Startup.{recover_active_segment_id, recover_next_lsn}
use ingest4x.Wal.Startup.Fresh.{IdsUpTo, recover_next_lsn-fits, recover_active_segment_id_last}
use ingest4x.Wal.Files.{find_file}
use ingest4x.Wal.Writer.State.{WriterEnv, WriterState, Exec, ◌>>=◌, ◌>>◌, lift, modify}
use ingest4x.Wal.Writer.Disk.{ensure_segment_file, ensure_wal_disk_space}
use ingest4x.Wal.Writer.Flush.{buffer_lsn}
use ingest4x.Wal.Writer.Ensures.{Ensures, bind-Ensures, lift-then}
use ingest4x.Wal.Writer.Steps.{ensure_wal_disk_space-Ensures}
use ingest4x.Wal.Writer.Invariant.{IsWriter}
use ingest4x.Wal.Writer.Open.{repair_active, set_writer, open_writer}
use ingest4x.Wal.Writer.Reopened.{
  Crashed, Readied, Repaired, ensure_segment_file-Ready, repair_active-Repaired,
}

module _ (env : WriterEnv) (law : IsCodec env.codec) (utf8 : is_utf8 env.node_id ≡ true)
    (id next : ℕ) (id_fits : id < 2 ^ 64) (next_fits : next < 2 ^ 64) where
  -- The steps behind the recovery of the numbers.
  started :
      (interval : Result Text ℕ) (w : WriterState)
      → (find_file id w.segments ≡ none) ⊎ Crashed env.codec w.segments id next
      → ((i : ℕ) → id < i → find_file i w.segments ≡ none)
      → Ensures
          (λ (u : Unit {0}) t. IsWriter env t)
          (λ t. Unit {0})
          ((ensure_segment_file env id next
              >> (repair_active env id >>= λ offset.
                  ensure_wal_disk_space env 0
                  >> (lift
                        (map_err (λ e. input_error "invalid wal.write.flush_interval: " e) interval)
                      >>= λ d. modify (set_writer env id next offset))))
            w).0
          ((ensure_segment_file env id next
              >> (repair_active env id >>= λ offset.
                  ensure_wal_disk_space env 0
                  >> (lift
                        (map_err (λ e. input_error "invalid wal.write.flush_interval: " e) interval)
                      >>= λ d. modify (set_writer env id next offset))))
            w).1
  unfolding buffer_lsn
  started interval w there above =
      bind-Ensures R (λ t. Unit {0}) (Readied env law utf8 id next id_fits next_fits)
        (ensure_segment_file env id next) (λ u. repair_active env id >>= spaced) w
        (ensure_segment_file-Ready env law utf8 id next id_fits next_fits w there above)
        (λ u t ready.
          bind-Ensures R (λ t. Unit {0}) (Repaired env law utf8 id next id_fits next_fits)
            (repair_active env id) spaced t
            (repair_active-Repaired env law utf8 id next id_fits next_fits t ready)
            (λ offset t' p.
              bind-Ensures R (λ t. Unit {0}) (S offset) (ensure_wal_disk_space env 0)
                (λ v. timed offset) t'
                (ensure_wal_disk_space-Ensures env (S offset) (λ t. Unit {0}) 0 t' p p tt)
                (λ v x q.
                  lift-then R (λ t. Unit {0})
                    (map_err (λ e. input_error "invalid wal.write.flush_interval: " e) interval)
                    (λ d. modify (set_writer env id next offset)) x tt
                    (λ d e. record {
                      active = q.0;
                      is_last = q.1;
                      typed = tt;
                      next_fits = next_fits;
                      consecutive = tt;
                    }))))
    where
      R : Unit {0} → WriterState → Type 0
      R u t = IsWriter env t

      S : ℕ → Unit {0} → WriterState → Type 0
      S offset u t = Repaired env law utf8 id next id_fits next_fits offset t

      timed : ℕ → Exec (Unit {0})
      timed offset =
          lift (map_err (λ e. input_error "invalid wal.write.flush_interval: " e) interval) >>= λ d.
          modify (set_writer env id next offset)

      spaced : ℕ → Exec (Unit {0})
      spaced offset = ensure_wal_disk_space env 0 >> timed offset

pub find_file-IdsUpTo : (ss : Segments) (n i : ℕ) → IdsUpTo n ss → n < i → find_file i ss ≡ none
unfolding find_file
find_file-IdsUpTo [] n i a l = refl
find_file-IdsUpTo ((j, f) ∷ ss) n i a l =
    let q : (j == i) ≡ false = ground (arith, a.0) in rw (q) (find_file-IdsUpTo ss n i (a.1) l)

-- Let the codec keep its promise, let the active segment that the directory and the checkpoint name be
-- missing or as a crash may leave it, and let the recovered LSN be `next`. If the start succeeds, whatever
-- the operating system answers on the way, the writer's state stands: the active segment is a header
-- and whole frames, the offset is behind them, no segment lies behind it, and a segment without a
-- frame names the LSN that the next append gets.
pub open_writer-IsWriter :
    (env : WriterEnv) (checkpoint : Option WalCheckpoint) (interval : Result Text ℕ)
    (w : WriterState) (next : ℕ)
    → IsCodec env.codec
    → is_utf8 env.node_id ≡ true
    → recover_active_segment_id w.segments checkpoint < 2 ^ 64
    → recover_next_lsn env.codec env.dir w.segments checkpoint ≡ ok next
    → (find_file (recover_active_segment_id w.segments checkpoint) w.segments ≡ none)
      ⊎ Crashed env.codec w.segments (recover_active_segment_id w.segments checkpoint) next
    → Ensures
        (λ (u : Unit {0}) t. IsWriter env t)
        (λ t. Unit {0})
        (open_writer env checkpoint interval w).0
        (open_writer env checkpoint interval w).1
unfolding open_writer
open_writer-IsWriter env checkpoint interval w next law utf8 fits e there = rw (e) (
    started env law utf8 (recover_active_segment_id w.segments checkpoint) next fits
      (recover_next_lsn-fits env.codec env.dir w.segments checkpoint next e) interval w there
      (λ i l.
        find_file-IdsUpTo w.segments (recover_active_segment_id w.segments checkpoint) i
          ((recover_active_segment_id_last w.segments checkpoint).0) l))
