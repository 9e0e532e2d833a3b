-- ===== src/Tests/Writer.antt =====
-- The theorems on the writer, from a directory with one fresh segment.
use ingest4x.Prelude.{
  ℕ, ◌≡◌, ◌⊎◌, refl, true, false, Option, ◌==◌, if◌then◌else◌, none, some, [], ◌∷◌, ◌++◌, arith,
  take,
}
use ingest4x.Bytes.{Bytes, be_bytes}
use ingest4x.Text.{codes, is_utf8}
use ingest4x.Result.{ok, err, IoError, ErrorKind, other_error}
use ingest4x.Wal.Record.{WalRecord, WalPosition, assign_wal_metadata}
use ingest4x.Wal.Frame.{serialize_frame, frame_bytes, fixed_header}
use ingest4x.Wal.Segment.{serialize_segment_header, segment_body}
use ingest4x.Wal.Scan.Image.{Tail, torn}
use ingest4x.Wal.Files.{find_file, put_file}
use ingest4x.Wal.Writer.State.{WriterEnv, WriterState, io}
use ingest4x.Wal.Writer.Flush.{
  flush_buffer_locked, append, buffer_record, receive, append_buffered, flush_taken, write_and_sync,
  write_loop, append_frame_locked, roll_over, put_frame, sync_loop, insert_id,
  notify_buffered_success, notify_buffered_failure, has_waiters,
}
use ingest4x.Wal.Writer.Disk.{
  ensure_wal_disk_space, ensure_segment_file, create_segment_file, append_bytes, sync_segment,
  truncate_after, remove_stale,
}
use ingest4x.Wal.Writer.Active.{Active-new}
use ingest4x.Wal.Writer.Invariant.{IsWriter, buffer_record-IsWriter}
use ingest4x.Wal.Writer.Flushed.{Flushed, flush_buffer_locked-Flushed}
use ingest4x.Wal.Writer.Runs.{Good, Runs, begin, further, append_step, RollBackFailed, given}
use ingest4x.Wal.Writer.Answers.{Readable, receive-Readable}
use ingest4x.Tests.World.{small_record, small_codec, small_codec-IsCodec}

-- With the errors of the operating system.
abbrev env_with : (ℕ → Option IoError) → WriterEnv
env_with faults = record {
  codec = small_codec;
  dir = codes "wal";
  node_id = 110 ∷ [];
  segment_max_bytes = 600;
  flush_records = 2;
  no_sync = false;
  min_free_bytes = 0;
  io_error = faults;
  written_part = λ n. 20;
  available_space = λ n. ok 0;
  now_ms = λ n. 9;
}

abbrev pub env : WriterEnv
env = env_with (λ n. none)

-- The second call fails: the write of the frame, of which 20 bytes reach the disk.
abbrev full_disk : ℕ → Option IoError
full_disk n =
    if n == 1 then some (record { kind = ErrorKind.other; message = codes "disk full" }) else none

abbrev pub header_image : Bytes
header_image = segment_body 9 1 (110 ∷ []) 1 ++ (0 ∷ 0 ∷ 1 ∷ 252 ∷ [])

pub header_is_written : serialize_segment_header small_codec 9 1 (110 ∷ []) 1 ≡ ok header_image
unfolding serialize_segment_header be_bytes
header_is_written = refl

-- The LSN and the node id are given by the writer.
abbrev pub asked : ℕ → WalRecord
asked n = small_record 0 0 (n ∷ 8 ∷ [])

abbrev pub fresh : WriterState
fresh = record {
  segment_id = 1;
  offset = 512;
  next_lsn = 1;
  buffered = [];
  segments = put_file 1 header_image [];
  responses = [];
  channels = 0;
  calls = 0;
}

pub node_id_utf8 : is_utf8 (110 ∷ []) ≡ true
unfolding is_utf8
node_id_utf8 = refl

fresh-IsWriter : (faults : ℕ → Option IoError) → IsWriter (env_with faults) fresh
unfolding find_file put_file ingest4x.Wal.Writer.Flush.buffer_lsn
fresh-IsWriter faults = record {
  active =
      Active-new small_codec [] 1 9 (110 ∷ []) 1 header_image header_is_written (omega arith)
        (omega arith) node_id_utf8;
  is_last = λ i l. ground arith;
  typed = tt;
  next_fits = omega arith;
  consecutive = tt;
}

pub fresh-Good : Good env asked fresh
fresh-Good = record { writer = fresh-IsWriter (λ n. none); owned = tt; answered = tt }

abbrev after_first : WriterState
after_first = (append env (asked 0) fresh).1

abbrev pub after_second : WriterState
after_second = (append env (asked 1) after_first).1

pub two_appends : Runs env asked fresh after_second
unfolding append append_buffered buffer_record
two_appends =
    further (further begin (append_step (asked 0) fresh (omega arith) (λ e. refl) (omega arith)))
      (append_step (asked 1) after_first (omega arith) (λ e. refl) (omega arith))

abbrev pub second_position : WalPosition
second_position = record { lsn = 2; segment = 2; offset = 512 }

pub second_received : receive 1 after_second ≡ some (ok second_position)
unfolding append append_buffered buffer_record flush_buffer_locked flush_taken write_and_sync
    write_loop append_frame_locked roll_over put_frame sync_loop insert_id notify_buffered_success
    receive ensure_wal_disk_space append_bytes sync_segment assign_wal_metadata serialize_frame
    frame_bytes fixed_header be_bytes find_file put_file io ensure_segment_file create_segment_file
    serialize_segment_header
second_received = refl

receive-Readable_example :
    Readable small_codec after_second.segments (codes "a.wal") (given env asked 1 2) second_position
    ⊎ RollBackFailed env asked two_appends
receive-Readable_example =
    receive-Readable env asked (codes "a.wal") fresh after_second 1 second_position
      small_codec-IsCodec node_id_utf8 fresh-Good two_appends second_received

abbrev one_buffered : WriterState
one_buffered = buffer_record (env_with full_disk) (asked 0) (some 0) fresh

flush_buffer_locked-Flushed_example :
    Flushed
      (env_with full_disk)
      one_buffered
      (flush_buffer_locked (env_with full_disk) one_buffered).0
      (flush_buffer_locked (env_with full_disk) one_buffered).1
unfolding buffer_record
flush_buffer_locked-Flushed_example =
    flush_buffer_locked-Flushed (env_with full_disk) one_buffered node_id_utf8
      (buffer_record-IsWriter (env_with full_disk) node_id_utf8 (asked 0) (some 0) fresh
        (omega arith) (fresh-IsWriter full_disk))
      (omega arith)

-- The record of the caller is not in the file, and the caller has the error.
flush_buffer_locked-full_disk :
    receive 0 (flush_buffer_locked (env_with full_disk) one_buffered).1
    ≡ some (err (other_error (codes "disk full")))
unfolding buffer_record flush_buffer_locked flush_taken write_and_sync write_loop
    append_frame_locked roll_over put_frame has_waiters notify_buffered_failure receive
    ensure_wal_disk_space append_bytes truncate_after remove_stale assign_wal_metadata
    serialize_frame frame_bytes fixed_header be_bytes find_file put_file io
flush_buffer_locked-full_disk = refl

abbrev pub first_frame : Bytes
first_frame = frame_bytes small_codec (small_record 1 110 []) (1 ∷ 110 ∷ [])

pub first_frame_torn : Tail small_codec (take 20 first_frame)
unfolding frame_bytes fixed_header be_bytes serialize_frame is_utf8
first_frame_torn =
    torn (small_record 1 110 []) first_frame 20
      (record { lsn_fits = omega arith; time_fits = omega arith; node_id_utf8 = refl }) refl
      (omega arith) refl
