-- ===== src/Wal/Writer/Flushed.antt =====
-- What a flush leaves: everything is written and answered, or everything is as before.
use ingest4x.Prelude.{
  ◌+◌, ◌<◌, ◌^◌, ◌≡◌, ◌⊎◌, inl, inr, refl, sym, ap, ◌∙◌, subst, Bool, true, false, some, List, [],
  ◌∷◌, ◌++◌, length, append-nil, arith, length-append, if◌then◌else◌,
}
use ingest4x.Bytes.{Bytes}
use ingest4x.Text.{is_utf8}
use ingest4x.Result.{Result, ok, err, IoError}
use ingest4x.Wal.Record.{WalPosition}
use ingest4x.Wal.Segment.RoundTrip.{length-serialize_segment_header}
use ingest4x.Wal.Scan.Image.{image}
use ingest4x.Wal.Log.{Segments}
use ingest4x.Wal.Files.{SameFiles}
use ingest4x.Wal.Writer.State.{WriterEnv, BufferedWalRecord, WriterState, continue}
use ingest4x.Wal.Writer.Disk.{truncate_after}
use ingest4x.Wal.Writer.Flush.{
  buffer_lsn, has_waiters, notify_buffered_success, notify_buffered_failure, write_and_sync,
  rolled_back, settled, flush_taken, flush_of, flush_buffer_locked,
}
use ingest4x.Wal.Writer.Ensures.{LastFailed, Ensures}
use ingest4x.Wal.Writer.Grown.{Extends, Extends-refl}
use ingest4x.Wal.Writer.Active.{Active}
use ingest4x.Wal.Writer.Steps.{Same, Broken, Sound}
use ingest4x.Wal.Writer.Loop.{AllStand, write_and_sync-Written}
use ingest4x.Wal.Writer.RollBack.{Stopped, truncate_after-SameFiles}
use ingest4x.Wal.Writer.Invariant.{IsWriter, Active_same, buffer_lsn-fits}

-- Every buffered record stands at its position, in files that only grew, and its caller has it.
pub record Done (env : WriterEnv) (w t : WriterState) : Type 0 where
  pub done_writer : IsWriter env t
  pub emptied : t.buffered ≡ []
  pub same_next : t.next_lsn ≡ w.next_lsn
  pub extends : Extends w.segments t.segments
  pub positions : List WalPosition
  pub stand : AllStand env.codec t.segments w.buffered positions
  pub answers : t.responses ≡ w.responses ++ notify_buffered_success w.buffered positions

-- With a caller that waits, all get the error and the LSNs are given anew; with none the records stay in
-- the buffer.
abbrev pub Settled : WriterState → IoError → WriterState → Type 0
Settled w e t =
    ((has_waiters w.buffered ≡ true)
      × (t.buffered ≡ [])
      × (t.next_lsn ≡ buffer_lsn w.buffered w.next_lsn)
      × (t.responses ≡ w.responses ++ notify_buffered_failure w.buffered e.message))
    ⊎ ((has_waiters w.buffered ≡ false)
        × (t.buffered ≡ w.buffered)
        × (t.next_lsn ≡ w.next_lsn)
        × (t.responses ≡ w.responses))

-- The writing of the buffer ends with the error, in the state `broken`.
abbrev pub WriteFails : WriterEnv → WriterState → IoError → WriterState → Type 0
WriteFails env w e broken =
    write_and_sync env w.buffered (record w { buffered = [] }) ≡ (err e, broken)

-- The writing failed, and the files and the place are as before.
pub record Undone (env : WriterEnv) (w : WriterState) (e : IoError) (t : WriterState) : Type 0 where
  pub left : WriterState
  pub failed : WriteFails env w e left
  pub undone_writer : IsWriter env t
  pub same_files : SameFiles t.segments w.segments
  pub same_segment : t.segment_id ≡ w.segment_id
  pub same_offset : t.offset ≡ w.offset
  pub outcome : Settled w e t

-- The writing failed and left `broken`, and a call of its roll-back failed; the records are gone, and no
-- caller has an answer.
pub record Stuck (env : WriterEnv) (w : WriterState) (e : IoError) (t : WriterState) : Type 0 where
  pub cause : IoError
  pub broken : WriterState
  pub writing_failed : WriteFails env w cause broken
  pub roll_back_failed :
      truncate_after env w.segment_id w.offset broken.segment_id broken ≡ (err e, t)
  pub last_failed : LastFailed env t
  pub dropped : t.buffered ≡ []
  pub kept_next : t.next_lsn ≡ w.next_lsn
  pub no_answers : t.responses ≡ w.responses

abbrev pub Flushed : WriterEnv → WriterState → Result IoError (Unit {0}) → WriterState → Type 0
Flushed env w (ok u) t = Done env w t
Flushed env w (err e) t = Undone env w e t ⊎ Stuck env w e t

module _ (env : WriterEnv) (utf8 : is_utf8 env.node_id ≡ true) (w : WriterState)
    (h : IsWriter env w) where
  abbrev start : WriterState
  start = record w { buffered = [] }

  abbrev file : Bytes
  file = h.active.header_bytes ++ image h.active.writes

  at_end : w.offset ≡ length file
  at_end = omega (
    arith,
    h.active.at_end,
    length-append h.active.header_bytes (image h.active.writes),
    length-serialize_segment_header env.codec h.active.is_segment.now w.segment_id
        h.active.is_segment.node_id h.active.start_lsn h.active.header_bytes
        h.active.is_segment.header_written,
  )

  -- The state in which the first frame is written.
  begun :
      w.segment_id + length w.buffered < 2 ^ 64
      → Sound env start file (length w.buffered) (buffer_lsn w.buffered w.next_lsn) w.segments start
  begun l = (
    (
      (refl, refl, refl, refl),
      record {
        first_le = omega arith;
        extra = [];
        grown = h.active.file ∙ ap some (sym (append-nil file));
        below = λ i k. refl;
        above = h.is_last;
      },
    ),
    h.active,
    Extends-refl w.segments,
    l,
  )

  all_written :
      (ps : List WalPosition) (t : WriterState)
      → Sound env start file 0 w.next_lsn w.segments t
      → AllStand env.codec t.segments w.buffered ps
      → Done env w (record t { responses = t.responses ++ notify_buffered_success w.buffered ps })
  unfolding buffer_lsn
  all_written ps t ((same, g), a, x, l) stand = record {
    done_writer = record {
      active = rw (same.2) (rw (same.0) a);
      is_last = g.above;
      typed = rw (same.2) tt;
      next_fits = rw (same.0) h.next_fits;
      consecutive = rw (same.2) tt;
    };
    emptied = same.2;
    same_next = same.0;
    extends = x;
    positions = ps;
    stand = stand;
    answers = ap (λ rs. rs ++ notify_buffered_success w.buffered ps) (same.1);
  }

  back :
      (ss : Segments)
      → SameFiles ss w.segments
      → Active env.codec ss w.segment_id w.offset (buffer_lsn w.buffered w.next_lsn)
  back ss files =
      Active_same env.codec w.segments ss w.segment_id w.offset (buffer_lsn w.buffered w.next_lsn)
        files h.active

  back-Undone :
      (e : IoError) (x t : WriterState) (b : Bool)
      → WriteFails env w e x
      → has_waiters w.buffered ≡ b
      → SameFiles t.segments w.segments
      → Same start t
      → Undone env w e (
          let back = record t { segment_id = w.segment_id; offset = w.offset } in
          if b
          then record back {
            next_lsn = buffer_lsn w.buffered w.next_lsn;
            responses = t.responses ++ notify_buffered_failure w.buffered e.message;
          }
          else record back { buffered = w.buffered })
  unfolding buffer_lsn
  back-Undone e x t true f q files same = record {
    left = x;
    failed = f;
    undone_writer = record {
      active = rw (same.2) (back t.segments files);
      is_last = λ i l. files i ∙ h.is_last i l;
      typed = rw (same.2) tt;
      next_fits = buffer_lsn-fits w.buffered w.next_lsn h.typed h.next_fits;
      consecutive = rw (same.2) tt;
    };
    same_files = files;
    same_segment = refl;
    same_offset = refl;
    outcome =
        inl
          (q, same.2, refl, ap (λ rs. rs ++ notify_buffered_failure w.buffered e.message) (same.1));
  }
  back-Undone e x t false f q files same = record {
    left = x;
    failed = f;
    undone_writer = record {
      active = rw (same.0) (back t.segments files);
      is_last = λ i l. files i ∙ h.is_last i l;
      typed = h.typed;
      next_fits = rw (same.0) h.next_fits;
      consecutive = rw (same.0) h.consecutive;
    };
    same_files = files;
    same_segment = refl;
    same_offset = refl;
    outcome = inr (q, refl, same.0, same.1);
  }

  -- The result of the writing is settled.
  settle :
      (r : Result IoError (List WalPosition) × WriterState)
      → write_and_sync env w.buffered start ≡ r
      → Ensures
          (λ ps t.
            Sound env start file 0 w.next_lsn w.segments t
            × AllStand env.codec t.segments w.buffered ps)
          (Broken start file)
          r.0
          r.1
      → Flushed env w
          (settled env start w.buffered r.0 r.1).0
          (settled env start w.buffered r.0 r.1).1
  settle (ok ps, t) f (sound, stand) = all_written ps t sound stand
  settle (err e, t) f b =
      go (truncate_after env w.segment_id w.offset t.segment_id t) refl
        (truncate_after-SameFiles env start h.is_last file t h.active.file at_end b)
    where
      go :
          (r : Result IoError (Unit {0}) × WriterState)
          → truncate_after env w.segment_id w.offset t.segment_id t ≡ r
          → Ensures
              (λ (u : Unit {0}) t'. SameFiles t'.segments w.segments × Same start t')
              (Stopped env start)
              r.0
              r.1
          → Flushed env w
              (continue {B = Unit {0}} r.0
                (λ u w'. (err e, rolled_back env start w.buffered e w'))
                r.1).0
              (continue {B = Unit {0}} r.0
                (λ u w'. (err e, rolled_back env start w.buffered e w'))
                r.1).1
      go (ok u, t') q (files, same) =
          inl (back-Undone e t t' (has_waiters w.buffered) f refl files same)
      go (err e', t') q (same, last) = inr (record {
        cause = e;
        writing_failed = f;
        last_failed = last;
        broken = t;
        roll_back_failed = q;
        dropped = same.2;
        kept_next = same.0;
        no_answers = same.1;
      })

  -- A writer whose buffer is empty has nothing to flush.
  nothing_to_flush : w.buffered ≡ [] → Done env w w
  unfolding notify_buffered_success
  nothing_to_flush e = record {
    done_writer = h;
    emptied = e;
    same_next = refl;
    extends = Extends-refl w.segments;
    positions = [];
    stand = rw (e) tt;
    answers = rw (e) (sym (append-nil w.responses));
  }

  flush_of-Flushed :
      (bs : List BufferedWalRecord)
      → w.buffered ≡ bs
      → w.segment_id + length w.buffered < 2 ^ 64
      → Flushed env w (flush_of env bs w).0 (flush_of env bs w).1
  unfolding flush_taken
  flush_of-Flushed [] e l = nothing_to_flush e
  flush_of-Flushed (b ∷ bs) e l =
      subst
        (λ (cs : List BufferedWalRecord).
          Flushed env w (flush_taken env start cs).0 (flush_taken env start cs).1)
        e
        (settle (write_and_sync env w.buffered start) refl (
          write_and_sync-Written env utf8 start file w.buffered w.next_lsn start h.typed (begun l)))

-- Let the writer's state stand, with numbers left for the segments. Whatever the operating system
-- answers and however much of a failed write reaches the disk, `flush_buffer_locked` either writes every
-- buffered record, each as a whole frame at the position that its caller is given, in files that only
-- grow, and empties the buffer; or leaves the segment files, the active segment and the offset as they
-- were, and then either all callers get the error and the LSNs are given anew, or, where no caller
-- waits, the records stay in the buffer; or a call of the operating
-- system fails in the roll-back of a writing that failed, and no caller gets an answer. An error comes
-- from a failed writing alone. In the first two cases the state still stands.
pub flush_buffer_locked-Flushed :
    (env : WriterEnv) (w : WriterState)
    → is_utf8 env.node_id ≡ true
    → IsWriter env w
    → w.segment_id + length w.buffered < 2 ^ 64
    → Flushed env w (flush_buffer_locked env w).0 (flush_buffer_locked env w).1
unfolding flush_buffer_locked
flush_buffer_locked-Flushed env w utf8 h l = flush_of-Flushed env utf8 w h w.buffered refl l
