-- ===== src/Wal/Log/Retention.antt =====
-- What the clean-up behind a checkpoint may remove.
use ingest4x.Prelude.{
  ℕ, ◌+◌, ◌<◌, ◌≤◌, ◌≡◌, refl, Option, none, some, List, [], ◌∷◌, leb, arith, All, Bool-cases, inl,
  inr, leb→le,
}
use ingest4x.Bytes.{Bytes}
use ingest4x.Text.{Text}
use ingest4x.Result.{Result, ok, err, IoError}
use ingest4x.Wal.Record.{WalRecord, Codec}
use ingest4x.Wal.Segment.{segment_path}
use ingest4x.Wal.Scan.{scan_segment, SegmentScan}
use ingest4x.Wal.Log.{
  Segments, max_lsn, Removal, remove_one, remove_scanned, removal_loop, sync_removed,
  remove_segments_covered_by_checkpoint,
}

pub max_lsn-All : (rs : List WalRecord) (lsn : ℕ) → max_lsn rs ≤ lsn → All (λ r. r.lsn ≤ lsn) rs
unfolding max_lsn
max_lsn-All [] lsn h = tt
max_lsn-All (r ∷ rs) lsn h = (omega arith, max_lsn-All rs lsn (omega arith))

pub max_lsn_below :
    (limit : ℕ) (rs : List WalRecord) → 0 < limit → All (λ r. r.lsn < limit) rs → max_lsn rs < limit
unfolding max_lsn
max_lsn_below limit [] p a = p
max_lsn_below limit (r ∷ rs) p a = let ih = max_lsn_below limit rs p a.1 in omega arith

-- A segment that may go: it lies before the segment of the checkpoint, it can be read to its end,
-- and the checkpoint covers every record in it.
pub record IsCovered (c : Codec) (dir : Text) (lsn keep id : ℕ) (file : Bytes) : Type 0 where
  pub older : id < keep
  pub scan : SegmentScan
  pub readable : scan_segment c (segment_path dir id) file ≡ ok scan
  pub covered : All (λ r. r.lsn ≤ lsn) scan.records

-- The files that are left: some of those before, in the same order, with the same bytes, less
-- covered ones.
pub data Retained (c : Codec) (dir : Text) (lsn keep : ℕ) : Segments → Segments → Type 0 where
  all_kept : (ss : Segments) → Retained c dir lsn keep ss ss
  keeps :
      {ss ts : Segments} (s : ℕ × Bytes)
      → Retained c dir lsn keep ss ts
      → Retained c dir lsn keep (s ∷ ss) (s ∷ ts)
  removes :
      {ss ts : Segments} (id : ℕ) (file : Bytes)
      → IsCovered c dir lsn keep id file
      → Retained c dir lsn keep ss ts
      → Retained c dir lsn keep ((id, file) ∷ ss) ts

module _ (c : Codec) (dir : Text) (lsn keep : ℕ) (io_error : ℕ → Option IoError) where
  remove_scanned-Retained :
      (o : Result IoError SegmentScan) (id : ℕ) (file : Bytes) (rest : Segments) (n : ℕ)
      (removed left : Removal)
      → id < keep
      → scan_segment c (segment_path dir id) file ≡ o
      → Retained c dir lsn keep rest removed.1
      → Retained c dir lsn keep ((id, file) ∷ rest) left.1
      → Retained c dir lsn keep
          ((id, file) ∷ rest)
          (remove_scanned o lsn io_error (id, file) rest n removed left).1
  unfolding remove_scanned
  remove_scanned-Retained (err e) id file rest n removed left h s r l = all_kept _
  remove_scanned-Retained (ok scan) id file rest n removed left h s r l =
      elim (Bool-cases (leb (max_lsn scan.records) lsn)) [
        | inl b ↦ rw b (
            go (io_error n) (record {
              older = h;
              scan = scan;
              readable = s;
              covered = max_lsn-All scan.records lsn (leb→le _ _ b);
            }))
        | inr b ↦ rw b l
      ]
    where
      go :
          (e : Option IoError)
          → IsCovered c dir lsn keep id file
          → Retained c dir lsn keep
              ((id, file) ∷ rest)
              (remove_one e (id, file) rest (n + 1) removed).1
      go none i = removes id file i r
      go (some e) i = all_kept _

removal_loop-Retained :
    (c : Codec) (dir : Text) (io_error : ℕ → Option IoError) (lsn keep n : ℕ) (segments : Segments)
    → Retained c dir lsn keep segments (removal_loop c dir io_error lsn keep n segments).1
unfolding removal_loop
removal_loop-Retained c dir io_error lsn keep n [] = all_kept []
removal_loop-Retained c dir io_error lsn keep n ((id, file) ∷ rest) =
    let same = keeps (id, file) (removal_loop-Retained c dir io_error lsn keep n rest) in
    elim (Bool-cases (leb keep id)) [
      | inl h ↦ rw h same
      | inr h ↦ rw h (
          remove_scanned-Retained c dir lsn keep io_error
            (scan_segment c (segment_path dir id) file) id file rest n _ _ (ground arith) refl
            (removal_loop-Retained c dir io_error lsn keep (n + 1) rest) same)
    ]

segments-sync_removed :
    (io_error : ℕ → Option IoError) (segments : Segments) (r : Removal)
    → (sync_removed io_error segments r).1 ≡ r.1
unfolding sync_removed
segments-sync_removed io_error segments (err e, left, n) = refl
segments-sync_removed io_error segments (ok x, left, n) = ground arith

-- Whatever fails on the way, the clean-up removes only segments before the checkpoint's whose every
-- record the checkpoint covers; all other files stay, in order and unchanged.
pub remove_segments_covered_by_checkpoint-Retained :
    (c : Codec) (dir : Text) (io_error : ℕ → Option IoError) (lsn keep n : ℕ) (segments : Segments)
    → Retained c dir lsn keep segments
        (remove_segments_covered_by_checkpoint c dir io_error lsn keep n segments).1
unfolding remove_segments_covered_by_checkpoint
remove_segments_covered_by_checkpoint-Retained c dir io_error lsn keep n segments =
    rw (segments-sync_removed io_error segments (removal_loop c dir io_error lsn keep n segments))
      (removal_loop-Retained c dir io_error lsn keep n segments)
