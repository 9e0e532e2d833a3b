-- ===== src/Tests/Start.antt =====
-- The theorems on the start of the writer, at a segment whose first frame was torn.
use ingest4x.Prelude.{◌≡◌, inr, refl, none, [], ◌∷◌, ◌++◌, arith, take, get_or, ==_refl, ◌⊎◌}
use ingest4x.Bytes.{Bytes}
use ingest4x.Text.{codes}
use ingest4x.Result.{ok}
use ingest4x.Wal.Segment.{segment_path}
use ingest4x.Wal.Scan.Recovery.{IsSegment, scan_segment-image}
use ingest4x.Wal.Log.{max_lsn}
use ingest4x.Wal.Startup.{recover_active_segment_id, recover_next_lsn, last_segment_id}
use ingest4x.Wal.Files.{find_file, put_file, find_file-put_file}
use ingest4x.Wal.Writer.State.{WriterState}
use ingest4x.Wal.Writer.Ensures.{Ensures}
use ingest4x.Wal.Writer.Invariant.{IsWriter}
use ingest4x.Wal.Writer.Open.{closed, open_writer}
use ingest4x.Wal.Writer.Start.{open_writer-IsWriter}
use ingest4x.Wal.Writer.Restart.{Left, restart-Readable}
use ingest4x.Wal.Writer.Answers.{Readable}
use ingest4x.Wal.Writer.Runs.{given, RollBackFailed}
use ingest4x.Tests.World.{small_codec, small_codec-IsCodec}
use ingest4x.Tests.Writer.{
  asked, fresh, fresh-Good, after_second, two_appends, second_position, second_received, env,
  header_image, header_is_written, node_id_utf8, first_frame, first_frame_torn,
}

header-IsSegment : IsSegment small_codec header_image 1 1 []
header-IsSegment = record {
  now = 9;
  node_id = 110 ∷ [];
  segment_fits = omega arith;
  start_fits = omega arith;
  node_id_utf8 = node_id_utf8;
  header_written = header_is_written;
  frames_written = tt;
  first_lsn = refl;
}

abbrev torn_file : Bytes
torn_file = header_image ++ take 20 first_frame

abbrev crashed : WriterState
crashed = closed ((1, torn_file) ∷ []) 0

next_is_one : recover_next_lsn small_codec (codes "wal") crashed.segments none ≡ ok 1
unfolding recover_next_lsn max_lsn
next_is_one =
    rw
      (scan_segment-image small_codec (segment_path (codes "wal") 1) header_image 1 1 []
        (take 20 first_frame) small_codec-IsCodec header-IsSegment first_frame_torn)
      refl

open_writer-IsWriter_example :
    Ensures
      (λ (u : Unit {0}) t. IsWriter env t)
      (λ t. Unit {0})
      (open_writer env none (ok 1) crashed).0
      (open_writer env none (ok 1) crashed).1
unfolding recover_active_segment_id last_segment_id find_file
open_writer-IsWriter_example =
    open_writer-IsWriter env none (ok 1) crashed 1 small_codec-IsCodec node_id_utf8 (omega arith)
      next_is_one
      (inr (record {
        header_bytes = header_image;
        start_lsn = 1;
        writes = [];
        tail = take 20 first_frame;
        is_segment = header-IsSegment;
        is_tail = first_frame_torn;
        file = refl;
        first = λ q. inr refl;
      }))

-- The process dies in the third frame of the writer of two records.
abbrev last_file : Bytes
last_file = get_or (find_file after_second.segment_id after_second.segments) []

abbrev crashed_later : WriterState
crashed_later =
    closed
      (put_file after_second.segment_id (last_file ++ take 20 first_frame) after_second.segments) 0

crashed_later-Left : Left small_codec after_second crashed_later.segments
crashed_later-Left = record {
  tail = take 20 first_frame;
  is_tail = first_frame_torn;
  active_file = λ f e.
      rw
        (
          find_file-put_file after_second.segment_id after_second.segment_id
              (last_file ++ take 20 first_frame) after_second.segments,
          ==_refl after_second.segment_id,
          e,
        )
        refl;
  others = λ i q.
      rw
        (
          find_file-put_file after_second.segment_id i (last_file ++ take 20 first_frame)
              after_second.segments,
          q,
        )
        refl;
}

restart-Readable_example :
    Ensures
      (λ (u : Unit {0}) t.
        Readable small_codec t.segments (codes "a.wal") (given env asked 1 2) second_position)
      (λ t. Unit {0})
      (open_writer env none (ok 1) crashed_later).0
      (open_writer env none (ok 1) crashed_later).1
    ⊎ RollBackFailed env asked two_appends
restart-Readable_example =
    restart-Readable env asked (codes "a.wal") none (ok 1) fresh after_second crashed_later 1
      second_position small_codec-IsCodec node_id_utf8 fresh-Good two_appends second_received
      crashed_later-Left
