-- ===== src/Tests/Log.antt =====
-- The theorems on the log, at a segment with two whole frames and a torn one.
use ingest4x.Prelude.{
  ℕ, suc, ◌+◌, ◌<◌, ◌≤◌, ◌^◌, ◌≡◌, ◌≢◌, refl, none, some, [], ◌∷◌, ◌++◌, arith, length, take, All,
  subst, ◌-◌,
}
use ingest4x.Bytes.{Bytes, be_bytes}
use ingest4x.Text.{codes, is_utf8}
use ingest4x.Result.{Result, ok, IoError}
use ingest4x.Wal.Record.{WalRecord, IsTyped}
use ingest4x.Wal.Frame.{frame_bytes, fixed_header, serialize_frame, read_record_frame}
use ingest4x.Wal.Frame.RoundTrip.{read-serialize}
use ingest4x.Wal.Frame.Torn.{read-take_serialize}
use ingest4x.Wal.Frame.Progress.{read_record_frame_progress}
use ingest4x.Wal.Segment.{segment_path, serialize_segment_header, segment_body, read_segment_header}
use ingest4x.Wal.Segment.RoundTrip.{read-serialize_segment_header}
use ingest4x.Wal.Scan.{
  SegmentScan, scan_loop, entries_loop, scan_segment, repair_segment_tail,
  read_segment_entries_after,
}
use ingest4x.Wal.Scan.Fuel.{loops_end}
use ingest4x.Wal.Scan.Image.{Writes, image, layout, Tail, torn, nothing}
use ingest4x.Wal.Scan.Recovery.{IsSegment, scan_segment-image, repair_segment_tail-image}
use ingest4x.Wal.Scan.Resume.{read_segment_entries_after-image}
use ingest4x.Wal.Log.{Segments, max_lsn, remove_segments_covered_by_checkpoint}
use ingest4x.Wal.Log.Retention.{Retained, remove_segments_covered_by_checkpoint-Retained}
use ingest4x.Wal.Checkpoint.{WalCheckpoint}
use ingest4x.Wal.Startup.{recover_active_segment_id, recover_next_lsn, checkpoint_lsn_of}
use ingest4x.Wal.Startup.Fresh.{
  LsnsBelow, IdsUpTo, recover_next_lsn_fresh, recover_active_segment_id_last,
}
use ingest4x.Tests.World.{small_record, small_codec, small_codec-IsCodec}

abbrev event : ℕ → WalRecord
event lsn = small_record lsn 110 (7 ∷ 8 ∷ [])

abbrev event_frame : ℕ → Bytes
event_frame lsn = frame_bytes small_codec (event lsn) (lsn ∷ 110 ∷ 7 ∷ 8 ∷ [])

event_is_written : (lsn : ℕ) → serialize_frame small_codec (event lsn) ≡ ok (event_frame lsn)
unfolding serialize_frame
event_is_written lsn = refl

event-IsTyped : (lsn : ℕ) → lsn < 2 ^ 64 → IsTyped (event lsn)
unfolding is_utf8
event-IsTyped lsn h = record { lsn_fits = h; time_fits = omega arith; node_id_utf8 = refl }

abbrev rest_of_file : Bytes
rest_of_file = 1 ∷ 2 ∷ []

read-serialize_example :
    read_record_frame small_codec (codes "a.wal") (event_frame 1 ++ rest_of_file) 512
    ≡ ok (some (event 1, 512 + length (event_frame 1), rest_of_file))
read-serialize_example =
    read-serialize small_codec (event 1) (event_frame 1) (codes "a.wal") 512 rest_of_file
      small_codec-IsCodec (event-IsTyped 1 (omega arith)) (event_is_written 1)

read-take_serialize_example :
    read_record_frame small_codec (codes "a.wal") (take 44 (event_frame 1)) 512 ≡ ok none
unfolding frame_bytes fixed_header be_bytes
read-take_serialize_example =
    read-take_serialize small_codec (event 1) (event_frame 1) (codes "a.wal") 512 44
      small_codec-IsCodec (event-IsTyped 1 (omega arith)) (event_is_written 1) (omega arith)

read_record_frame_progress_example :
    (512 + 42 ≤ 512 + length (event_frame 1))
    × (512 + length (event_frame 1 ++ rest_of_file) ≡ 512 + length (event_frame 1) + 2)
read_record_frame_progress_example =
    read_record_frame_progress small_codec (codes "a.wal") (event_frame 1 ++ rest_of_file) 512
      (event 1) (512 + length (event_frame 1)) rest_of_file read-serialize_example

abbrev header_image : Bytes
header_image = segment_body 9 1 (110 ∷ []) 1 ++ (0 ∷ 0 ∷ 1 ∷ 252 ∷ [])

header_is_written : serialize_segment_header small_codec 9 1 (110 ∷ []) 1 ≡ ok header_image
unfolding serialize_segment_header be_bytes
header_is_written = refl

read-serialize_segment_header_example :
    read_segment_header small_codec (codes "a.wal") (header_image ++ rest_of_file)
    ≡ ok (record { segment_id = 1; start_lsn = 1; node_id = 110 ∷ [] }, rest_of_file)
unfolding is_utf8
read-serialize_segment_header_example =
    read-serialize_segment_header small_codec 9 1 (110 ∷ []) 1 (codes "a.wal") header_image
      rest_of_file small_codec-IsCodec (omega arith) (omega arith) refl header_is_written

-- Two frames.
abbrev two_writes : Writes
two_writes = (event 1, event_frame 1) ∷ (event 2, event_frame 2) ∷ []

torn_frame : Tail small_codec (take 20 (event_frame 3))
unfolding frame_bytes fixed_header be_bytes
torn_frame =
    torn (event 3) (event_frame 3) 20 (event-IsTyped 3 (omega arith)) (event_is_written 3)
      (omega arith) refl

two_writes-IsSegment : IsSegment small_codec header_image 1 1 two_writes
unfolding is_utf8
two_writes-IsSegment = record {
  now = 9;
  node_id = 110 ∷ [];
  segment_fits = omega arith;
  start_fits = omega arith;
  node_id_utf8 = refl;
  header_written = header_is_written;
  frames_written = (
    event-IsTyped 1 (omega arith),
    event_is_written 1,
    (event-IsTyped 2 (omega arith), event_is_written 2, tt),
  );
  first_lsn = refl;
}

scan_segment-image_example :
    scan_segment small_codec
      (codes "a.wal")
      (header_image ++ (image two_writes ++ take 20 (event_frame 3)))
    ≡ ok (record {
      records = event 1 ∷ event 2 ∷ [];
      valid_offset = 512 + length (image two_writes);
    })
scan_segment-image_example =
    scan_segment-image small_codec (codes "a.wal") header_image 1 1 two_writes
      (take 20 (event_frame 3)) small_codec-IsCodec two_writes-IsSegment torn_frame

repair_segment_tail-image_example :
    repair_segment_tail small_codec
      (codes "a.wal")
      (header_image ++ (image two_writes ++ take 20 (event_frame 3)))
    ≡ ok (512 + length (image two_writes), header_image ++ image two_writes)
repair_segment_tail-image_example =
    repair_segment_tail-image small_codec (codes "a.wal") header_image 1 1 two_writes
      (take 20 (event_frame 3)) small_codec-IsCodec two_writes-IsSegment torn_frame

read_segment_entries_after-image_example :
    read_segment_entries_after small_codec
      (codes "a.wal")
      1
      (header_image ++ (image two_writes ++ take 20 (event_frame 3)))
      (512 + length (image ((event 1, event_frame 1) ∷ [])))
      (some 1)
    ≡ ok (
        layout 1
          (512 + length (image ((event 1, event_frame 1) ∷ [])))
          ((event 2, event_frame 2) ∷ []))
read_segment_entries_after-image_example =
    read_segment_entries_after-image small_codec (codes "a.wal") header_image 1 1
      ((event 1, event_frame 1) ∷ []) ((event 2, event_frame 2) ∷ []) (take 20 (event_frame 3))
      (some 1) small_codec-IsCodec two_writes-IsSegment torn_frame

loops_end_example :
    (scan_loop (suc (length (event_frame 1))) small_codec (codes "a.wal") (event_frame 1) 512
      ≢ none)
    × (entries_loop
          (suc (length (event_frame 1)))
          small_codec
          (codes "a.wal")
          1
          (some 3)
          0
          (event_frame 1)
          512
        ≢ none)
loops_end_example = loops_end small_codec (codes "a.wal") 1 (some 3) (event_frame 1) 512

abbrev two_segments : Segments
two_segments = (1, header_image ++ (image two_writes ++ [])) ∷ (2, rest_of_file) ∷ []

remove_segments_covered_by_checkpoint-Retained_example :
    Retained small_codec
      (codes "d")
      2
      2
      two_segments
      (remove_segments_covered_by_checkpoint small_codec
        (codes "d")
        (λ n. none)
        2
        2
        0
        two_segments).1
remove_segments_covered_by_checkpoint-Retained_example =
    remove_segments_covered_by_checkpoint-Retained small_codec (codes "d") (λ n. none) 2 2 0
      two_segments

abbrev checkpoint : WalCheckpoint
checkpoint = record {
  version = 1;
  node_id = 110 ∷ [];
  sink_id = none;
  checkpoint_lsn = 9;
  checkpoint_segment_id = 1;
  checkpoint_segment_offset = 512;
  updated_at = 0;
  checksum = 0;
}

abbrev one_segment : Segments
one_segment = (1, header_image ++ (image two_writes ++ [])) ∷ []

one_segment_is_read :
    scan_segment small_codec (segment_path (codes "d") 1) (header_image ++ (image two_writes ++ []))
    ≡ ok (record {
      records = event 1 ∷ event 2 ∷ [];
      valid_offset = 512 + length (image two_writes);
    })
one_segment_is_read =
    scan_segment-image small_codec (segment_path (codes "d") 1) header_image 1 1 two_writes []
      small_codec-IsCodec two_writes-IsSegment nothing

same_records : {a b : SegmentScan} {o : Result IoError SegmentScan} → o ≡ ok a → o ≡ ok b → a ≡ b
same_records p q = cc

one_segment-LsnsBelow : LsnsBelow small_codec (codes "d") (2 ^ 64 - 1) one_segment
one_segment-LsnsBelow = (
  (λ scan e.
      subst (λ t. All (λ r. r.lsn < 2 ^ 64 - 1) t.records) (same_records one_segment_is_read e)
        (omega arith, (omega arith, tt))),
  tt,
)

next_lsn_recovered : recover_next_lsn small_codec (codes "d") one_segment (some checkpoint) ≡ ok 10
unfolding recover_next_lsn max_lsn
next_lsn_recovered = rw one_segment_is_read refl

recover_next_lsn_fresh_example :
    LsnsBelow small_codec (codes "d") 10 one_segment × (checkpoint_lsn_of (some checkpoint) < 10)
recover_next_lsn_fresh_example =
    recover_next_lsn_fresh small_codec (codes "d") one_segment (some checkpoint) 10
      one_segment-LsnsBelow (omega arith) next_lsn_recovered

recover_active_segment_id_last_example :
    IdsUpTo (recover_active_segment_id one_segment (some checkpoint)) one_segment
    × ((k : WalCheckpoint)
        → some checkpoint ≡ some k
        → k.checkpoint_segment_id < 2 ^ 64 - 1
        → k.checkpoint_segment_id < recover_active_segment_id one_segment (some checkpoint))
recover_active_segment_id_last_example =
    recover_active_segment_id_last one_segment (some checkpoint)
