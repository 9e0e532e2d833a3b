-- ===== src/Wal/Scan/Fuel.antt =====
-- The loops of `Scan` end: a frame takes 42 bytes at least, so the length of the file is fuel enough.
use ingest4x.Prelude.{
  ℕ, zero, suc, ◌+◌, ◌<◌, ◌≡◌, ◌≢◌, refl, Bool, true, false, Option, none, some, List, length,
  arith,
}
use ingest4x.Bytes.{Bytes}
use ingest4x.Text.{Text}
use ingest4x.Result.{Result, ok, err, IoError}
use ingest4x.Wal.Record.{WalRecord, WalEntry, Codec}
use ingest4x.Wal.Frame.{Frame, read_record_frame}
use ingest4x.Wal.Frame.Progress.{read_record_frame_progress}
use ingest4x.Wal.Scan.{
  SegmentScan, Fueled, scanned, scan_loop, collected, limit_reached, entries_loop,
}

scanned-ne-none : (r : WalRecord) (s : Fueled SegmentScan) → s ≢ none → scanned r s ≢ none
scanned-ne-none r none h e = h refl
scanned-ne-none r (some (err x)) h e = cc
scanned-ne-none r (some (ok s)) h e = cc

-- Whatever the bytes are, the scan of a segment ends within as many rounds as there are bytes.
pub scan_loop-ne-none :
    (fuel : ℕ) (c : Codec) (path : Text) (src : Bytes) (offset : ℕ)
    → length src < fuel
    → scan_loop fuel c path src offset ≢ none
unfolding scan_loop
scan_loop-ne-none zero c path src offset h = elim h [ ]
scan_loop-ne-none (suc fuel) c path src offset h =
    go (read_record_frame c path src offset) refl (scan_loop-ne-none fuel c path)
  where
    go :
        (o : Result IoError (Option Frame))
        → read_record_frame c path src offset ≡ o
        → ((rest : Bytes) (next : ℕ) → length rest < fuel → scan_loop fuel c path rest next ≢ none)
        → scan_loop (suc fuel) c path src offset ≢ none
    go (err x) e ih = rw (e, scan_loop) (λ p. cc)
    go (ok none) e ih = rw (e, scan_loop) (λ p. cc)
    go (ok (some (r, next, rest))) e ih =
        rw (e, scan_loop)
          (scanned-ne-none r _ (
            ih rest next
              (omega (arith, read_record_frame_progress c path src offset r next rest e))))

collected-ne-none : (e : WalEntry) (s : Fueled (List WalEntry)) → s ≢ none → collected e s ≢ none
collected-ne-none r none h e = h refl
collected-ne-none r (some (err x)) h e = cc
collected-ne-none r (some (ok s)) h e = cc

pub entries_loop-ne-none :
    (fuel : ℕ) (c : Codec) (path : Text) (segment : ℕ) (limit : Option ℕ) (n : ℕ) (src : Bytes)
    (offset : ℕ)
    → length src < fuel
    → entries_loop fuel c path segment limit n src offset ≢ none
unfolding entries_loop
entries_loop-ne-none zero c path segment limit n src offset h = elim h [ ]
entries_loop-ne-none (suc fuel) c path segment limit n src offset h =
    go (limit_reached limit n) refl (read_record_frame c path src offset) refl
      (entries_loop-ne-none fuel c path segment limit)
  where
    go :
        (b : Bool)
        → limit_reached limit n ≡ b
        → (o : Result IoError (Option Frame)) → read_record_frame c path src offset ≡ o
        → ((m : ℕ) (rest : Bytes) (next : ℕ)
            → length rest < fuel
            → entries_loop fuel c path segment limit m rest next ≢ none)
        → entries_loop (suc fuel) c path segment limit n src offset ≢ none
    go true l o e ih = rw (l, entries_loop) (λ p. cc)
    go false l (err x) e ih = rw (l, entries_loop) (rw e (λ p. cc))
    go false l (ok none) e ih = rw (l, entries_loop) (rw e (λ p. cc))
    go false l (ok (some (r, next, rest))) e ih =
        rw (l, entries_loop)
          (rw e (
            collected-ne-none _ _ (
              ih (n + 1) rest next
                (omega (arith, read_record_frame_progress c path src offset r next rest e)))))

-- Both loops end on every file content, within one round more than the file has bytes.
pub loops_end :
    (c : Codec) (path : Text) (segment : ℕ) (limit : Option ℕ) (src : Bytes) (offset : ℕ)
    → (scan_loop (suc (length src)) c path src offset ≢ none)
      × (entries_loop (suc (length src)) c path segment limit 0 src offset ≢ none)
loops_end c path segment limit src offset = (
  scan_loop-ne-none (suc (length src)) c path src offset (omega arith),
  entries_loop-ne-none (suc (length src)) c path segment limit 0 src offset (omega arith),
)
