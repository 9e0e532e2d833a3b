-- ===== src/Wal/Scan.antt =====
-- Reading a segment file of src/wal/mod.rs: `scan_segment`, `read_segment_entries_after`,
-- `repair_segment_tail`. A file is its bytes; a loop reads one frame a round, on fuel.
pub mod Fuel
pub mod Image
pub mod Recovery
pub mod Resume
use ingest4x.Prelude.{
  ℕ, zero, suc, ◌+◌, Bool, true, false, ◌||◌, not, Option, none, some, List, [], ◌∷◌, map, length,
  take, drop, leb, ltb, ◌==◌, get_or, is_some, if◌then◌else◌,
}
use ingest4x.Bytes.{Bytes}
use ingest4x.Text.{Text, codes}
use ingest4x.Result.{
  Result, ok, err, ◌>>=◌, ◌>>◌, guard, IoError, data_error, input_error, other_error,
}
use ingest4x.Wal.Record.{WalRecord, WalPosition, WalEntry, Codec}
use ingest4x.Wal.Frame.{read_record_frame}
use ingest4x.Wal.Segment.{read_segment_header, segment_header_len}

pub record SegmentScan : Type 0 where
  pub records : List WalRecord
  pub valid_offset : ℕ

-- `none` means that the fuel ran out.
abbrev pub Fueled : Type 0 → Type 0
Fueled A = Option (Result IoError A)

abbrev scanned : WalRecord → Fueled SegmentScan → Fueled SegmentScan
scanned r none = none
scanned r (some (err e)) = some (err e)
scanned r (some (ok s)) = some (ok (record s { records = r ∷ s.records }))

pub scan_loop : ℕ → Codec → Text → Bytes → ℕ → Fueled SegmentScan
scan_loop zero c path src offset = none
scan_loop (suc fuel) c path src offset = elim (read_record_frame c path src offset) [
  | err e ↦ some (err e)
  | ok none ↦ some (ok (record { records = []; valid_offset = offset }))
  | ok (some (r, next, rest)) ↦ scanned r (scan_loop fuel c path rest next)
]

abbrev collected : WalEntry → Fueled (List WalEntry) → Fueled (List WalEntry)
collected e none = none
collected e (some (err x)) = some (err x)
collected e (some (ok es)) = some (ok (e ∷ es))

-- `limit.is_some_and(|limit| n >= limit)`
abbrev pub limit_reached : Option ℕ → ℕ → Bool
limit_reached none n = false
limit_reached (some limit) n = leb limit n

abbrev pub entry_at : ℕ → ℕ → ℕ → WalRecord → WalEntry
entry_at segment offset next r = record {
  position = record { lsn = r.lsn; segment = segment; offset = offset };
  next_position = record { lsn = r.lsn; segment = segment; offset = next };
  entry_record = r;
}

-- `n` is `entries.len()`.
pub entries_loop : ℕ → Codec → Text → ℕ → Option ℕ → ℕ → Bytes → ℕ → Fueled (List WalEntry)
entries_loop zero c path segment limit n src offset = none
entries_loop (suc fuel) c path segment limit n src offset = elim (limit_reached limit n) [
  | true ↦ some (ok [])
  | false ↦ elim (read_record_frame c path src offset) [
    | err e ↦ some (err e)
    | ok none ↦ some (ok [])
    | ok (some (r, next, rest)) ↦
        collected (entry_at segment offset next r)
          (entries_loop fuel c path segment limit (n + 1) rest next)
  ]
]

-- Never used: `Fuel` shows that a file's length is fuel enough.
fuel_error : IoError
fuel_error = other_error (codes "out of fuel")

-- `first_lsn.is_some_and(|lsn| lsn != header.start_lsn)`
abbrev pub starts_at : List WalRecord → ℕ → Bool
starts_at [] start_lsn = true
starts_at (r ∷ rs) start_lsn = r.lsn == start_lsn

pub scan_segment : Codec → Text → Bytes → Result IoError SegmentScan
unfolding scan_loop fuel_error
scan_segment c path file = do
  (header, body) ← read_segment_header c path file
  scan ← get_or (scan_loop (suc (length body)) c path body segment_header_len) (err fuel_error)
  guard (starts_at scan.records header.start_lsn)
      (data_error "wal segment start_lsn mismatch: " path)
  ok scan

pub entry_record_of : WalEntry → WalRecord
entry_record_of e = e.entry_record

pub read_segment_entries_after :
    Codec → Text → ℕ → Bytes → ℕ → Option ℕ → Result IoError (List WalEntry)
unfolding entries_loop fuel_error entry_record_of
read_segment_entries_after c path segment file start_offset limit = do
  (header, body) ← read_segment_header c path file
  guard (leb segment_header_len start_offset) (input_error "invalid wal checkpoint offset: " path)
  guard (leb start_offset (length file)) (input_error "invalid wal checkpoint offset: " path)
  let src = drop start_offset file
  entries ←
      get_or (entries_loop (suc (length src)) c path segment limit 0 src start_offset)
        (err fuel_error)
  guard
      (not (start_offset == segment_header_len)
        || starts_at (map entry_record_of entries) header.start_lsn)
      (data_error "wal segment start_lsn mismatch: " path)
  ok entries

-- `repair_segment_tail`: the offset, and the file cut off behind its last whole frame.
pub repair_segment_tail : Codec → Text → Bytes → Result IoError (ℕ × Bytes)
repair_segment_tail c path file = do
  scan ← scan_segment c path file
  ok (scan.valid_offset, take scan.valid_offset file)
