-- ===== src/Wal/Writer/Flush.antt =====
-- `append`, `append_buffered`, `flush_buffer` and `append_frame_locked` of src/wal/mod.rs, as a release
-- build runs them.
use ingest4x.Prelude.{
  ℕ, ◌+◌, Bool, true, false, ◌&&◌, ◌||◌, Option, none, some, List, [], ◌∷◌, ◌++◌, length, leb, ltb,
  ◌==◌, is_some, if◌then◌else◌, ◌⊎◌, inl, inr,
}
use ingest4x.Prelude.Int.{wrap_add}
use ingest4x.Bytes.{Bytes}
use ingest4x.Text.{Text, codes}
use ingest4x.Result.{Result, ok, err, IoError, other_error}
use ingest4x.Wal.Record.{WalRecord, WalPosition, assign_wal_metadata}
use ingest4x.Wal.Frame.{serialize_frame}
use ingest4x.Wal.Segment.{segment_header_len}
use ingest4x.Wal.Writer.State.{
  WriterEnv, BufferedWalRecord, WriterState, Exec, ◌>>=◌, ◌>>◌, pure, lift,
}
use ingest4x.Wal.Writer.Disk.{
  ensure_segment_file, ensure_wal_disk_space, append_bytes, sync_segment, truncate_after,
}

-- `BTreeSet::insert`
unfoldable pub insert_id : ℕ → List ℕ → List ℕ
insert_id i [] = i ∷ []
insert_id i (j ∷ js) =
    let rest = insert_id i js in if i == j then j ∷ js else if ltb i j then i ∷ j ∷ js else j ∷ rest

unfoldable pub buffer_lsn : List BufferedWalRecord → ℕ → ℕ
buffer_lsn [] next = next
buffer_lsn (b ∷ bs) next = b.buffered_record.lsn

unfoldable pub has_waiters : List BufferedWalRecord → Bool
has_waiters [] = false
has_waiters (b ∷ bs) = is_some b.response || has_waiters bs

abbrev pub answer_to : Option ℕ → Result IoError WalPosition → List (ℕ × Result IoError WalPosition)
answer_to none r = []
answer_to (some n) r = (n, r) ∷ []

-- `zip`: the shorter list ends it.
unfoldable pub notify_buffered_success :
    List BufferedWalRecord → List WalPosition → List (ℕ × Result IoError WalPosition)
notify_buffered_success [] ps = []
notify_buffered_success (b ∷ bs) [] = []
notify_buffered_success (b ∷ bs) (p ∷ ps) =
    answer_to b.response (ok p) ++ notify_buffered_success bs ps

unfoldable pub notify_buffered_failure :
    List BufferedWalRecord → Text → List (ℕ × Result IoError WalPosition)
notify_buffered_failure [] message = []
notify_buffered_failure (b ∷ bs) message =
    answer_to b.response (err (other_error message)) ++ notify_buffered_failure bs message

module _ (env : WriterEnv) where
  -- The segment is left for the next where the frame would pass its largest size.
  abbrev pub is_full : WriterState → Bytes → Bool
  is_full w bytes =
      ltb segment_header_len w.offset && ltb env.segment_max_bytes (w.offset + length bytes)

  abbrev pub segment_behind : WriterState → WriterState
  segment_behind w = record w { segment_id = wrap_add w.segment_id 1; offset = segment_header_len }

  unfoldable pub roll_over : Bytes → ℕ → Exec (Unit {0})
  roll_over bytes lsn w =
      if is_full w bytes
      then ensure_segment_file env (wrap_add w.segment_id 1) lsn (segment_behind w)
      else (ok tt, w)

  abbrev pub position_at : WriterState → ℕ → WalPosition
  position_at w lsn = record { lsn = lsn; segment = w.segment_id; offset = w.offset }

  -- The offset moves behind a frame that was written whole.
  unfoldable pub put_frame : Bytes → ℕ → Exec WalPosition
  put_frame bytes lsn w =
      (append_bytes env w.segment_id bytes >> λ w'.
      (ok (position_at w lsn), record w' { offset = w.offset + length bytes }))
        w

  -- Every call passes `sync` as false.
  unfoldable pub append_frame_locked : Bytes → ℕ → Exec WalPosition
  append_frame_locked bytes lsn =
      roll_over bytes lsn >> (ensure_wal_disk_space env (length bytes) >> put_frame bytes lsn)

  -- The loop over the buffered records: the positions, and the segments that were touched.
  unfoldable pub write_loop :
      List BufferedWalRecord → List ℕ → List WalPosition → Exec (List ℕ × List WalPosition)
  write_loop [] touched positions w = (ok (touched, positions), w)
  write_loop (b ∷ bs) touched positions w =
      (lift (serialize_frame env.codec b.buffered_record) >>= λ bytes.
      append_frame_locked bytes b.buffered_record.lsn >>= λ p.
      write_loop bs (insert_id p.segment touched) (positions ++ (p ∷ [])))
        w

  unfoldable pub sync_loop : List ℕ → Exec (Unit {0})
  sync_loop [] w = (ok tt, w)
  sync_loop (i ∷ is) w = (sync_segment env i >> sync_loop is) w

  unfoldable pub write_and_sync : List BufferedWalRecord → Exec (List WalPosition)
  write_and_sync bs = write_loop bs [] [] >>= λ r. sync_loop (r.0) >> pure (r.1)

  abbrev pub rolled_back :
      WriterState → List BufferedWalRecord → IoError → WriterState → WriterState
  rolled_back start bs error w =
      let back = record w { segment_id = start.segment_id; offset = start.offset } in
      if has_waiters bs
      then record back {
        next_lsn = buffer_lsn bs start.next_lsn;
        responses = w.responses ++ notify_buffered_failure bs error.message;
      }
      else record back { buffered = bs }

  abbrev pub settled :
      WriterState → List BufferedWalRecord → Result IoError (List WalPosition) → Exec (Unit {0})
  settled start bs (ok positions) w =
      (ok tt, record w { responses = w.responses ++ notify_buffered_success bs positions })
  settled start bs (err error) w =
      (truncate_after env start.segment_id start.offset w.segment_id >> λ w'.
      (err error, rolled_back start bs error w'))
        w

  -- `start` is the state with its buffer taken.
  unfoldable pub flush_taken :
      WriterState → List BufferedWalRecord → Result IoError (Unit {0}) × WriterState
  flush_taken start bs = let r = write_and_sync bs start in settled start bs r.0 r.1

  abbrev pub flush_of : List BufferedWalRecord → Exec (Unit {0})
  flush_of [] w = (ok tt, w)
  flush_of (b ∷ bs) w = flush_taken (record w { buffered = [] }) (b ∷ bs)

  unfoldable pub flush_buffer_locked : Exec (Unit {0})
  flush_buffer_locked w = flush_of w.buffered w

  -- The state with the record at the end of the buffer
  unfoldable pub buffer_record : WalRecord → Option ℕ → WriterState → WriterState
  buffer_record r response w = record w {
    next_lsn = wrap_add w.next_lsn 1;
    buffered =
        w.buffered
        ++ (record {
          buffered_record = assign_wal_metadata r w.next_lsn env.node_id;
          response = response;
        }
            ∷ []);
  }

  unfoldable pub append_buffered : WalRecord → Option ℕ → Exec WalPosition
  append_buffered r response w =
      let w' = buffer_record r response w in
      if leb env.flush_records (length w'.buffered)
      then (flush_buffer_locked >> pure (position_at w w.next_lsn)) w'
      else (ok (position_at w w.next_lsn), w')

  -- With `no_sync` the position of the buffering is the answer; else the caller waits for its channel.
  unfoldable pub append : WalRecord → Exec (ℕ ⊎ WalPosition)
  append r w =
      if env.no_sync
      then (append_buffered r none >>= λ p. pure (inr p)) w
      else (append_buffered r (some w.channels) >>= λ p. pure (inl w.channels))
          (record w { channels = w.channels + 1 })

abbrev pub first_response :
    ℕ → List (ℕ × Result IoError WalPosition) → Option (Result IoError WalPosition)
first_response n [] = none
first_response n ((m, r) ∷ rs) = if m == n then some r else first_response n rs

abbrev pub is_for : Option ℕ → ℕ → Bool
is_for none n = false
is_for (some m) n = m == n

abbrev pub waits : ℕ → List BufferedWalRecord → Bool
waits n [] = false
waits n (b ∷ bs) = is_for b.response n || waits n bs

-- The answer that was sent, or whether the caller still waits.
abbrev pub received :
    Option (Result IoError WalPosition) → Bool → Option (Result IoError WalPosition)
received (some r) waiting = some r
received none true = none
received none false = some (err (other_error (codes "wal flush response channel closed")))

-- What the caller of channel `n` receives: nothing while its record is in the buffer, and an error when
-- the record is gone without an answer.
unfoldable pub receive : ℕ → WriterState → Option (Result IoError WalPosition)
receive n w = received (first_response n w.responses) (waits n w.buffered)
