-- ===== src/Wal/Writer/Runs.antt =====
-- The calls of `append` and of the flush loop, in any order: what holds of the writer after them.
use ingest4x.Prelude.{
  ℕ, ◌+◌, ◌<◌, ◌^◌, ◌≡◌, ◌⊎◌, inl, inr, refl, sym, ap, ◌∙◌, subst, if◌then◌else◌, false, Option,
  none, some, List, [], ◌∷◌, ◌++◌, length, append-nil,
}
use ingest4x.Text.{Text}
use ingest4x.Result.{Result, ok, err, IoError}
use ingest4x.Wal.Record.{WalRecord, WalPosition, received_at_ms, assign_wal_metadata}
use ingest4x.Wal.Log.{Segments}
use ingest4x.Wal.Files.{SameFiles}
use ingest4x.Wal.Writer.State.{WriterEnv, BufferedWalRecord, WriterState}
use ingest4x.Wal.Writer.Flush.{
  answer_to, notify_buffered_success, notify_buffered_failure, flush_buffer_locked, buffer_record,
  append,
}
use ingest4x.Wal.Writer.Grown.{Extends}
use ingest4x.Wal.Writer.Active.{Stands, Stands-Extends}
use ingest4x.Wal.Writer.Loop.{AllStand}
use ingest4x.Wal.Writer.Invariant.{IsWriter}
use ingest4x.Wal.Writer.Flushed.{Settled, Stuck, Flushed}

-- One call; `asked n` is the record of the caller that waits on channel `n`.
pub data Step (env : WriterEnv) (asked : ℕ → WalRecord) : WriterState → WriterState → Type 0 where
  append_step :
      (r : WalRecord) (w : WriterState)
      → received_at_ms r < 2 ^ 64
      → (env.no_sync ≡ false → asked w.channels ≡ r)
      → w.segment_id + (length w.buffered + 1) < 2 ^ 64
      → Step env asked w (append env r w).1
  flush_step :
      (w : WriterState)
      → w.segment_id + length w.buffered < 2 ^ 64
      → Step env asked w (flush_buffer_locked env w).1

pub data Runs (env : WriterEnv) (asked : ℕ → WalRecord) (w : WriterState)
    : WriterState → Type 0 where
  begin : Runs env asked w w
  further : {u t : WriterState} → Runs env asked w u → Step env asked u t → Runs env asked w t

module _ (env : WriterEnv) (asked : ℕ → WalRecord) where
  -- The record of channel `n` with the LSN that it was given.
  abbrev pub given : ℕ → ℕ → WalRecord
  given n lsn = assign_wal_metadata (asked n) lsn env.node_id

  abbrev pub Owned : List BufferedWalRecord → Type 0
  Owned [] = Unit {0}
  Owned (b ∷ bs) =
      ((n : ℕ) → b.response ≡ some n → b.buffered_record ≡ given n b.buffered_record.lsn) × Owned bs

  abbrev pub Answer : Segments → ℕ → Result IoError WalPosition → Type 0
  Answer ss n (ok p) = Stands env.codec ss (given n p.lsn) p
  Answer ss n (err e) = Unit {0}

  -- Every position that a caller got is that of its own record.
  abbrev pub Answered : Segments → List (ℕ × Result IoError WalPosition) → Type 0
  Answered ss [] = Unit {0}
  Answered ss (r ∷ rs) = Answer ss (r.0) (r.1) × Answered ss rs

  pub record Good (w : WriterState) : Type 0 where
    pub writer : IsWriter env w
    pub owned : Owned w.buffered
    pub answered : Answered w.segments w.responses

  -- The state in which `append` flushes: with the record, and with a channel where its caller waits.
  abbrev pub appended : WalRecord → WriterState → WriterState
  appended r w =
      if env.no_sync
      then buffer_record env r none w
      else buffer_record env r (some w.channels) (record w { channels = w.channels + 1 })

  -- The flush of the step failed, and a call of its roll-back too.
  abbrev pub StepFailed : {w t : WriterState} → Step env asked w t → Type 0
  StepFailed (append_step r w time own l) =
      (e : IoError) × Stuck env (appended r w) e (append env r w).1
  StepFailed (flush_step w l) = (e : IoError) × Stuck env w e (flush_buffer_locked env w).1

  -- A step of the run is such.
  abbrev pub RollBackFailed : {w t : WriterState} → Runs env asked w t → Type 0
  RollBackFailed begin = ⊥
  RollBackFailed (further runs step) = RollBackFailed runs ⊎ StepFailed step

  Answered-append :
      (ss : Segments) (xs ys : List (ℕ × Result IoError WalPosition))
      → Answered ss xs
      → Answered ss ys
      → Answered ss (xs ++ ys)
  Answered-append ss [] ys p q = q
  Answered-append ss (x ∷ xs) ys p q = (p.0, Answered-append ss xs ys (p.1) q)

  Answer-Extends :
      (ss ts : Segments) (n : ℕ) (r : Result IoError WalPosition)
      → Extends ss ts
      → Answer ss n r
      → Answer ts n r
  Answer-Extends ss ts n (ok p) x a = Stands-Extends env.codec ss ts (given n p.lsn) p x a
  Answer-Extends ss ts n (err e) x a = tt

  Answered-Extends :
      (ss ts : Segments) (rs : List (ℕ × Result IoError WalPosition))
      → Extends ss ts
      → Answered ss rs
      → Answered ts rs
  Answered-Extends ss ts [] x a = tt
  Answered-Extends ss ts (r ∷ rs) x a =
      (Answer-Extends ss ts (r.0) (r.1) x (a.0), Answered-Extends ss ts rs x (a.1))

  SameFiles-Extends : (ss ts : Segments) → SameFiles ts ss → Extends ss ts
  SameFiles-Extends ss ts same i f h = ([], same i ∙ h ∙ ap some (sym (append-nil f)))

  success-Answered :
      (ss : Segments) (bs : List BufferedWalRecord) (ps : List WalPosition)
      → Owned bs
      → AllStand env.codec ss bs ps
      → Answered ss (notify_buffered_success bs ps)
  unfolding notify_buffered_success
  success-Answered ss [] ps o a = tt
  success-Answered ss (b ∷ bs) [] o a = tt
  success-Answered ss (b ∷ bs) (p ∷ ps) o a =
      Answered-append ss (answer_to b.response (ok p)) (notify_buffered_success bs ps)
        (go b.response refl) (success-Answered ss bs ps (o.1) (a.1))
    where
      go : (n : Option ℕ) → b.response ≡ n → Answered ss (answer_to n (ok p))
      go none e = tt
      go (some n) e = (
        subst (λ r. Stands env.codec ss r p) (o.0 n e ∙ ap (given n) (sym (a.0.same_lsn))) (a.0),
        tt,
      )

  failure-Answered :
      (ss : Segments) (bs : List BufferedWalRecord) (message : Text)
      → Answered ss (notify_buffered_failure bs message)
  unfolding notify_buffered_failure
  failure-Answered ss [] message = tt
  failure-Answered ss (b ∷ bs) message =
      Answered-append ss (answer_to b.response (err _)) (notify_buffered_failure bs message)
        (go b.response _) (failure-Answered ss bs message)
    where
      go : (n : Option ℕ) (e : IoError) → Answered ss (answer_to n (err e))
      go none e = tt
      go (some n) e = (tt, tt)

  -- After a flush the state stands with its answers, or the roll-back failed.
  pub Flushed-Good :
      (w : WriterState) (r : Result IoError (Unit {0})) (t : WriterState)
      → Good w
      → Flushed env w r t
      → Good t ⊎ ((e : IoError) × (r ≡ err e) × Stuck env w e t)
  Flushed-Good w (ok u) t g d = inl (record {
    writer = d.done_writer;
    owned = rw (d.emptied) tt;
    answered = rw (d.answers) (
        Answered-append t.segments w.responses (notify_buffered_success w.buffered d.positions)
          (Answered-Extends w.segments t.segments w.responses d.extends g.answered)
          (success-Answered t.segments w.buffered d.positions g.owned d.stand));
  })
  Flushed-Good w (err e) t g (inr s) = inr (e, refl, s)
  Flushed-Good w (err e) t g (inl d) = inl (go d.outcome)
    where
      old : Answered t.segments w.responses
      old =
          Answered-Extends w.segments t.segments w.responses
            (SameFiles-Extends w.segments t.segments d.same_files) g.answered

      go : Settled w e t → Good t
      go (inl (x, emptied, next, responses)) = record {
        writer = d.undone_writer;
        owned = rw (emptied) tt;
        answered = rw (responses) (
            Answered-append t.segments w.responses (notify_buffered_failure w.buffered e.message)
              old (failure-Answered t.segments w.buffered e.message));
      }
      go (inr (x, kept, next, responses)) = record {
        writer = d.undone_writer;
        owned = rw (kept) g.owned;
        answered = rw (responses) old;
      }
