-- ===== src/Wal/Writer/Invariant.antt =====
-- When a state of the writer stands: the active segment is a header and whole frames up to the offset,
-- it is the last, and the buffered records have the LSNs up to the next one.
use ingest4x.Prelude.{
  ℕ, ◌<◌, ◌^◌, ◌≡◌, refl, sym, ap, ◌∙◌, subst, true, Option, none, List, [], ◌∷◌, ◌++◌, arith,
}
use ingest4x.Prelude.Int.{wrap_add}
use ingest4x.Text.{is_utf8}
use ingest4x.Wal.Record.{WalRecord, Codec, IsTyped, received_at_ms, assign_wal_metadata}
use ingest4x.Wal.Log.{Segments}
use ingest4x.Wal.Files.{find_file, SameFiles}
use ingest4x.Wal.Writer.State.{WriterEnv, BufferedWalRecord, WriterState}
use ingest4x.Wal.Writer.Flush.{buffer_lsn, buffer_record}
use ingest4x.Wal.Writer.Active.{Active}
use ingest4x.Wal.Writer.Loop.{AreTyped}

-- Each buffered record has the LSN before the next one's, as the counter of a release build runs.
abbrev pub Consecutive : List BufferedWalRecord → ℕ → Type 0
Consecutive [] next = Unit {0}
Consecutive (b ∷ bs) next =
    (wrap_add b.buffered_record.lsn 1 ≡ buffer_lsn bs next) × Consecutive bs next

pub record IsWriter (env : WriterEnv) (w : WriterState) : Type 0 where
  pub active : Active env.codec w.segments w.segment_id w.offset (buffer_lsn w.buffered w.next_lsn)
  pub is_last : (i : ℕ) → w.segment_id < i → find_file i w.segments ≡ none
  pub typed : AreTyped w.buffered
  pub next_fits : w.next_lsn < 2 ^ 64
  pub consecutive : Consecutive w.buffered w.next_lsn

pub Active_same :
    (c : Codec) (ss ts : Segments) (current offset next : ℕ)
    → SameFiles ts ss
    → Active c ss current offset next
    → Active c ts current offset next
Active_same c ss ts current offset next same a = record {
  header_bytes = a.header_bytes;
  start_lsn = a.start_lsn;
  writes = a.writes;
  is_segment = a.is_segment;
  file = same current ∙ a.file;
  at_end = a.at_end;
  first = a.first;
}

pub buffer_lsn-fits :
    (bs : List BufferedWalRecord) (next : ℕ)
    → AreTyped bs
    → next < 2 ^ 64
    → buffer_lsn bs next < 2 ^ 64
unfolding buffer_lsn
buffer_lsn-fits [] next t h = h
buffer_lsn-fits (b ∷ bs) next t h = t.0.lsn_fits

module _ (b : BufferedWalRecord) (next : ℕ) (e : b.buffered_record.lsn ≡ next) where
  buffer_lsn-snoc :
      (bs : List BufferedWalRecord) (n : ℕ) → buffer_lsn (bs ++ (b ∷ [])) n ≡ buffer_lsn bs next
  unfolding buffer_lsn
  buffer_lsn-snoc [] n = e
  buffer_lsn-snoc (c ∷ bs) n = refl

  Consecutive-snoc :
      (bs : List BufferedWalRecord)
      → Consecutive bs next
      → Consecutive (bs ++ (b ∷ [])) (wrap_add next 1)
  unfolding buffer_lsn
  Consecutive-snoc [] h = (ap (λ n. wrap_add n 1) e, tt)
  Consecutive-snoc (c ∷ bs) (h, k) =
      (h ∙ sym (buffer_lsn-snoc bs (wrap_add next 1)), Consecutive-snoc bs k)

  AreTyped-snoc :
      (bs : List BufferedWalRecord)
      → AreTyped bs
      → IsTyped b.buffered_record
      → AreTyped (bs ++ (b ∷ []))
  AreTyped-snoc [] t h = (h, tt)
  AreTyped-snoc (c ∷ bs) t h = (t.0, AreTyped-snoc bs (t.1) h)

module _ (env : WriterEnv) (utf8 : is_utf8 env.node_id ≡ true) where
  -- A record that is put into the buffer has the next LSN, and the files are not touched.
  pub buffer_record-IsWriter :
      (r : WalRecord) (response : Option ℕ) (w : WriterState)
      → received_at_ms r < 2 ^ 64
      → IsWriter env w
      → IsWriter env (buffer_record env r response w)
  unfolding buffer_record assign_wal_metadata
  buffer_record-IsWriter r response w time h = record {
    active =
        subst (Active env.codec w.segments w.segment_id w.offset)
          (sym (buffer_lsn-snoc b w.next_lsn refl w.buffered (wrap_add w.next_lsn 1))) h.active;
    is_last = h.is_last;
    typed =
        AreTyped-snoc b w.next_lsn refl w.buffered h.typed
          (record { lsn_fits = h.next_fits; time_fits = time; node_id_utf8 = utf8 });
    next_fits = omega arith;
    consecutive = Consecutive-snoc b w.next_lsn refl w.buffered h.consecutive;
  }
    where
      b : BufferedWalRecord
      b = record {
        buffered_record = assign_wal_metadata r w.next_lsn env.node_id;
        response = response;
      }
