-- ===== src/Wal/Log.antt =====
-- Reading the log across its segment files (src/wal/mod.rs): `read_entries_after_limit`,
-- `read_wal_bounds`, `remove_segments_covered_by_checkpoint`. A directory is the list of its segment
-- files, in the order in which `read_dir` gives them; each has the name that `segment_path` gives.
-- Reads of existing files do not fail here; `remove_file` may, as `io_error` says for each call.
pub mod Retention
use ingest4x.Prelude.{
  ℕ, zero, suc, ◌+◌, ◌-◌, Bool, true, false, ◌&&◌, ◌||◌, not, Option, none, some, List, [], ◌∷◌,
  ◌++◌, length, leb, ltb, ◌==◌, max, or_some, if◌then◌else◌,
}
use ingest4x.Bytes.{Bytes}
use ingest4x.Text.{Text}
use ingest4x.Result.{Result, ok, err, ◌>>=◌, IoError}
use ingest4x.Wal.Record.{WalRecord, WalPosition, WalEntry, WalBounds, Codec}
use ingest4x.Wal.Segment.{segment_path, segment_header_len}
use ingest4x.Wal.Scan.{scan_segment, SegmentScan, read_segment_entries_after, limit_reached}

abbrev pub Segments : Type 0
Segments = List (ℕ × Bytes)

insert_segment : ℕ × Bytes → Segments → Segments
insert_segment s [] = s ∷ []
insert_segment (i, f) ((j, g) ∷ ss) =
    let rest = insert_segment (i, f) ss in if leb i j then (i, f) ∷ (j, g) ∷ ss else (j, g) ∷ rest

-- `sort_unstable` of the ids
pub sort_segments : Segments → Segments
unfolding insert_segment
sort_segments [] = []
sort_segments (s ∷ ss) = insert_segment s (sort_segments ss)

abbrev before_checkpoint : Option WalPosition → ℕ → Bool
before_checkpoint none id = false
before_checkpoint (some p) id = ltb id p.segment

abbrev start_offset : Option WalPosition → ℕ → ℕ
start_offset none id = segment_header_len
start_offset (some p) id = if p.segment == id then p.offset else segment_header_len

-- `limit.map(|limit| limit.saturating_sub(entries.len()))`
abbrev remaining : Option ℕ → ℕ → Option ℕ
remaining none n = none
remaining (some limit) n = some (limit - n)

abbrev is_zero : Option ℕ → Bool
is_zero none = false
is_zero (some n) = n == 0

log_loop :
    Codec
    → Text
    → Option WalPosition
    → Option ℕ
    → Segments
    → List WalEntry
    → Result IoError (List WalEntry)
log_loop c dir checkpoint limit [] entries = ok entries
log_loop c dir checkpoint limit ((id, file) ∷ rest) entries =
    let skipped = log_loop c dir checkpoint limit rest entries in
    let more =
      read_segment_entries_after c (segment_path dir id) id file (start_offset checkpoint id)
        (remaining limit (length entries))
      >>= λ new.
          let next = log_loop c dir checkpoint limit rest (entries ++ new) in
          if limit_reached limit (length (entries ++ new)) then ok (entries ++ new) else next in
    if before_checkpoint checkpoint id
    then skipped
    else if is_zero (remaining limit (length entries))
    then ok entries
    else more

pub read_entries_after_limit :
    Codec → Text → Segments → Option WalPosition → Option ℕ → Result IoError (List WalEntry)
unfolding log_loop sort_segments
read_entries_after_limit c dir segments checkpoint limit =
    log_loop c dir checkpoint limit (sort_segments segments) []

-- The local variables of `read_wal_bounds`.
record Bounds : Type 0 where
  pub floor : Option WalPosition
  pub tail : Option WalPosition
  pub max_lsn : ℕ
  pub last_segment : Option (ℕ × ℕ)

bounds_of_entries : List WalEntry → Bounds → Bounds
bounds_of_entries [] b = b
bounds_of_entries (e ∷ es) b = bounds_of_entries es (record b {
  floor = or_some b.floor (some e.position);
  tail = some e.next_position;
  max_lsn = max b.max_lsn e.position.lsn;
})

bounds_loop : Codec → Text → Segments → Bounds → Result IoError Bounds
unfolding bounds_of_entries
bounds_loop c dir [] b = ok b
bounds_loop c dir ((id, file) ∷ rest) b =
    read_segment_entries_after c (segment_path dir id) id file segment_header_len none
    >>= λ entries.
        bounds_loop c dir rest
          (bounds_of_entries entries (record b { last_segment = some (id, length file) }))

-- `tail.is_none_or(|position| segment > position.segment || offset > position.offset)`
abbrev behind : Option WalPosition → ℕ → ℕ → Bool
behind none segment offset = true
behind (some p) segment offset = ltb p.segment segment || ltb p.offset offset

final_tail : Bounds → Option (ℕ × ℕ) → Option WalPosition
final_tail b none = b.tail
final_tail b (some (segment, offset)) =
    if behind b.tail segment offset
    then some (record { lsn = b.max_lsn; segment = segment; offset = offset })
    else b.tail

pub read_wal_bounds : Codec → Text → Segments → Result IoError WalBounds
unfolding bounds_loop final_tail sort_segments
read_wal_bounds c dir segments =
    bounds_loop c dir (sort_segments segments)
      (record { floor = none; tail = none; max_lsn = 0; last_segment = none })
    >>= λ b. ok (record { floor = b.floor; tail = final_tail b b.last_segment })

-- `.map(|record| record.lsn).max().unwrap_or(0)`
unfoldable pub max_lsn : List WalRecord → ℕ
max_lsn [] = 0
max_lsn (r ∷ rs) = max r.lsn (max_lsn rs)

-- The result, the files that are left, and the number of calls of the outside world.
abbrev Removal : Type 0
Removal = Result IoError (Unit {0}) × Segments × ℕ

abbrev kept : ℕ × Bytes → Removal → Removal
kept s r = (r.0, s ∷ r.1, r.2)

remove_one : Option IoError → ℕ × Bytes → Segments → ℕ → Removal → Removal
remove_one none s rest n r = r
remove_one (some e) s rest n r = (err e, s ∷ rest, n)

remove_scanned :
    Result IoError SegmentScan
    → ℕ
    → (ℕ → Option IoError)
    → ℕ × Bytes
    → Segments
    → ℕ
    → Removal
    → Removal
    → Removal
unfolding remove_one max_lsn
remove_scanned (err e) lsn io_error s rest n removed left = (err e, s ∷ rest, n)
remove_scanned (ok scan) lsn io_error s rest n removed left =
    if leb (max_lsn scan.records) lsn then remove_one (io_error n) s rest (n + 1) removed else left

pub removal_loop : Codec → Text → (ℕ → Option IoError) → ℕ → ℕ → ℕ → Segments → Removal
removal_loop c dir io_error lsn keep n [] = (ok tt, [], n)
removal_loop c dir io_error lsn keep n ((id, file) ∷ rest) =
    let same = kept (id, file) (removal_loop c dir io_error lsn keep n rest) in
    let removed = removal_loop c dir io_error lsn keep (n + 1) rest in
    let tested =
      remove_scanned (scan_segment c (segment_path dir id) file) lsn io_error (id, file) rest n
        removed same in
    if leb keep id then same else tested

-- `if removed { sync_directory(dir)? }`
sync_removed : (ℕ → Option IoError) → Segments → Removal → Removal
sync_removed io_error segments (err e, left, n) = (err e, left, n)
sync_removed io_error segments (ok x, left, n) =
    if ltb (length left) (length segments)
    then elim (io_error n) [ none ↦ (ok tt, left, n + 1) | some e ↦ (err e, left, n + 1) ]
    else (ok tt, left, n)

pub remove_segments_covered_by_checkpoint :
    Codec → Text → (ℕ → Option IoError) → ℕ → ℕ → ℕ → Segments → Removal
remove_segments_covered_by_checkpoint c dir io_error lsn keep n segments =
    sync_removed io_error segments (removal_loop c dir io_error lsn keep n segments)
