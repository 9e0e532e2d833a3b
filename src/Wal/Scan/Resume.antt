-- ===== src/Wal/Scan/Resume.antt =====
-- Reading on from a checkpoint inside a segment file.
use ingest4x.Prelude.{
  ℕ, zero, suc, ◌+◌, ◌-◌, ◌≡◌, refl, ap, true, not, ◌||◌, Option, none, some, List, [], ◌∷◌, ◌++◌,
  map, length, length-append, append_assoc, take, drop, drop-append, arith, subst, leb, ◌==◌,
  Bool-cases, inl, inr,
}
use ingest4x.Bytes.{Bytes}
use ingest4x.Text.{Text}
use ingest4x.Result.{ok}
use ingest4x.Wal.Record.{WalEntry, Codec, IsCodec}
use ingest4x.Wal.Segment.RoundTrip.{length-serialize_segment_header}
use ingest4x.Wal.Scan.{starts_at, read_segment_entries_after, entry_record_of}
use ingest4x.Wal.Scan.Image.{
  Writes, AreWritten, image, written, layout, Tail, limited, entries_loop-image, frame-pos,
}
use ingest4x.Wal.Scan.Recovery.{IsSegment, header_read, AreWritten-append, image-append}

start_taken :
    (m segment offset start_lsn : ℕ) (vs : Writes)
    → starts_at (written vs) start_lsn ≡ true
    → starts_at (map entry_record_of (take m (layout segment offset vs))) start_lsn ≡ true
unfolding entry_record_of
start_taken zero segment offset lsn vs h = refl
start_taken (suc m) segment offset lsn [] h = refl
start_taken (suc m) segment offset lsn ((r, f) ∷ vs) h = h

records_start :
    (limit : Option ℕ) (segment offset start_lsn : ℕ) (vs : Writes)
    → starts_at (written vs) start_lsn ≡ true
    → starts_at (map entry_record_of (limited limit 0 (layout segment offset vs))) start_lsn ≡ true
unfolding entry_record_of
records_start none segment offset lsn [] h = refl
records_start none segment offset lsn ((r, f) ∷ vs) h = h
records_start (some limit) segment offset lsn vs h = start_taken (limit - 0) segment offset lsn vs h

-- At the start of the frames nothing was skipped.
skipped_none :
    (c : Codec) (law : IsCodec c) (path : Text) (ws : Writes)
    → AreWritten c ws
    → length (image ws) ≡ 0
    → ws ≡ []
skipped_none c law path [] a h = refl
skipped_none c law path ((r, f) ∷ ws) a h =
    absurd (omega (arith, length-append f (image ws), frame-pos c law path r f a.0 a.1))

module _ (c : Codec) (law : IsCodec c) (path : Text) (hb : Bytes) (segment start_lsn : ℕ)
    (ws vs : Writes) (s : IsSegment c hb segment start_lsn (ws ++ vs)) (tail : Bytes)
    (t : Tail c tail) (limit : Option ℕ) where
  abbrev offset : ℕ
  offset = 512 + length (image ws)

  abbrev file : Bytes
  file = hb ++ (image (ws ++ vs) ++ tail)

  file_split : file ≡ (hb ++ image ws) ++ (image vs ++ tail)
  file_split = rw (image-append ws vs) (simp append_assoc)

  front : length (hb ++ image ws) ≡ offset
  front = omega (
    arith,
    length-append hb (image ws),
    length-serialize_segment_header c s.now segment s.node_id start_lsn hb s.header_written,
  )

  dropped : drop offset file ≡ image vs ++ tail
  dropped = rw file_split (
      subst (λ n. drop n ((hb ++ image ws) ++ (image vs ++ tail)) ≡ image vs ++ tail) front
        (drop-append (hb ++ image ws) (image vs ++ tail)))

  offset_in_file : leb offset (length file) ≡ true
  offset_in_file =
      ground (arith, front, ap length file_split, length-append (hb ++ image ws) (image vs ++ tail))

  abbrev entries : List WalEntry
  entries = limited limit 0 (layout segment offset vs)

  start_checked : (not (offset == 512) || starts_at (map entry_record_of entries) start_lsn) ≡ true
  start_checked = elim (Bool-cases (offset == 512)) [
    | inl e ↦
        let none_skipped : ws ≡ [] =
          skipped_none c law path ws (AreWritten-append c ws vs s.frames_written).0
            (ground arith) in
        let first : starts_at (written vs) start_lsn ≡ true =
          subst (λ us. starts_at (written (us ++ vs)) start_lsn ≡ true) none_skipped s.first_lsn in
        rw e (records_start limit segment offset start_lsn vs first)
    | inr e ↦ rw e
  ]

  behind_header : leb 512 offset ≡ true
  behind_header = ground arith

  read_after : read_segment_entries_after c path segment file offset limit ≡ ok entries
  unfolding read_segment_entries_after
  read_after =
      rw
        (header_read c law path hb segment start_lsn (ws ++ vs) s tail t (image (ws ++ vs) ++ tail))
        (rw
          (
            behind_header,
            offset_in_file,
            dropped,
            entries_loop-image c law path vs tail segment limit 0 offset
                (suc (length (image vs ++ tail))) (AreWritten-append c ws vs s.frames_written).1 t
                (omega arith),
          )
          (rw start_checked))

-- Reading from the offset behind the frames `ws` gives the entries of the other frames, up to the
-- limit: in order, each at its own offset and with the offset behind it, and nothing of a torn frame.
pub read_segment_entries_after-image :
    (c : Codec) (path : Text) (hb : Bytes) (segment start_lsn : ℕ) (ws vs : Writes) (tail : Bytes)
    (limit : Option ℕ)
    → IsCodec c
    → IsSegment c hb segment start_lsn (ws ++ vs)
    → Tail c tail
    → read_segment_entries_after c path segment
        (hb ++ (image (ws ++ vs) ++ tail))
        (512 + length (image ws))
        limit
      ≡ ok (limited limit 0 (layout segment (512 + length (image ws)) vs))
read_segment_entries_after-image c path hb segment start_lsn ws vs tail limit law s t =
    read_after c law path hb segment start_lsn ws vs s tail t limit
