-- ===== src/Wal/Writer/Answers.antt =====
-- What a caller of `append` may rely on: the writer with the reader.
use ingest4x.Prelude.{
  ℕ, ◌+◌, ◌≡◌, ◌⊎◌, inl, inr, refl, ap, ◌∙◌, subst, Bool, true, false, Option, none, some, List, [],
  ◌∷◌, ◌++◌, length, drop, drop-append, ◌==◌, ==_eq, if◌then◌else◌,
}
use ingest4x.Bytes.{Bytes}
use ingest4x.Text.{Text, is_utf8}
use ingest4x.Result.{Result, ok, IoError}
use ingest4x.Wal.Record.{WalRecord, WalPosition, Codec, IsCodec}
use ingest4x.Wal.Frame.{read_record_frame}
use ingest4x.Wal.Frame.RoundTrip.{read-serialize}
use ingest4x.Wal.Log.{Segments}
use ingest4x.Wal.Files.{find_file}
use ingest4x.Wal.Writer.State.{WriterEnv, WriterState}
use ingest4x.Wal.Writer.Flush.{first_response, waits, received, receive}
use ingest4x.Wal.Writer.Active.{Stands}
use ingest4x.Wal.Writer.Runs.{given, Answer, Answered, Good, Runs, RollBackFailed}
use ingest4x.Wal.Writer.Calls.{Runs-Good}

-- A reader that goes to the position finds the record.
pub record Readable (c : Codec) (ss : Segments) (path : Text) (r : WalRecord) (p : WalPosition)
    : Type 0 where
  pub file : Bytes
  pub is_file : find_file p.segment ss ≡ some file
  pub next_offset : ℕ
  pub rest : Bytes
  pub reads :
      read_record_frame c path (drop p.offset file) p.offset ≡ ok (some (r, next_offset, rest))

pub Stands-Readable :
    (c : Codec) (ss : Segments) (path : Text) (r : WalRecord) (p : WalPosition)
    → IsCodec c
    → Stands c ss r p
    → Readable c ss path r p
Stands-Readable c ss path r p law s = record {
  file = s.before ++ (s.frame ++ s.after);
  is_file = s.in_file;
  next_offset = p.offset + length s.frame;
  rest = s.after;
  reads =
      ap (λ bs. read_record_frame c path bs p.offset)
        (ap (λ n. drop n (s.before ++ (s.frame ++ s.after))) s.at_offset
          ∙ drop-append s.before (s.frame ++ s.after))
      ∙ read-serialize c r s.frame path p.offset s.after law s.is_typed s.is_frame;
}

some_value : {a b : Bytes} → ◌≡◌ {A = Option Bytes} (some a) (some b) → a ≡ b
some_value h = cc

module _ (env : WriterEnv) (asked : ℕ → WalRecord) where
  first_response-Answer :
      (ss : Segments) (n : ℕ) (x : Result IoError WalPosition)
      (rs : List (ℕ × Result IoError WalPosition))
      → Answered env asked ss rs
      → first_response n rs ≡ some x
      → Answer env asked ss n x
  first_response-Answer ss n x [] a h = absurd (let c : ⊥ = cc in c)
  first_response-Answer ss n x ((m, r) ∷ rs) a h =
      go (m == n) refl h (first_response-Answer ss n x rs (a.1))
    where
      go :
          (b : Bool)
          → (m == n) ≡ b
          → (if b then some r else first_response n rs) ≡ some x
          → (first_response n rs ≡ some x → Answer env asked ss n x)
          → Answer env asked ss n x
      go true e h k =
          let q : r ≡ x = cc in
          subst (λ k. Answer env asked ss k x) (==_eq m n e) (subst (Answer env asked ss m) q (a.0))
      go false e h k = k h

  pub receive-Answer :
      (n : ℕ) (w : WriterState) (p : WalPosition)
      → Good env asked w
      → receive n w ≡ some (ok p)
      → Answer env asked w.segments n (ok p)
  unfolding receive
  receive-Answer n w p g h = go (first_response n w.responses) (waits n w.buffered) refl h
    where
      go :
          (o : Option (Result IoError WalPosition)) (b : Bool)
          → first_response n w.responses ≡ o
          → received o b ≡ some (ok p)
          → Answer env asked w.segments n (ok p)
      go (some r) b e h = first_response-Answer w.segments n (ok p) w.responses g.answered (e ∙ h)
      go none true e h = absurd (let c : ⊥ = cc in c)
      go none false e h = absurd (let c : ⊥ = cc in c)

-- Let the codec keep its promise, and let the writer's state stand when a run begins. Whatever calls of
-- `append` and flushes follow and whatever the operating system answers: when the caller on channel `n`
-- has received a position, a reader that goes there finds the record which this caller handed over, with
-- the LSN of the position and the writer's node id; or a step of the
-- run began a flush whose writing failed and in whose roll-back a call of the operating system failed.
pub receive-Readable :
    (env : WriterEnv) (asked : ℕ → WalRecord) (path : Text) (w t : WriterState) (n : ℕ)
    (p : WalPosition)
    → IsCodec env.codec
    → is_utf8 env.node_id ≡ true
    → Good env asked w
    → (runs : Runs env asked w t) → receive n t ≡ some (ok p)
    → Readable env.codec t.segments path (given env asked n p.lsn) p ⊎ RollBackFailed env asked runs
receive-Readable env asked path w t n p law utf8 g runs h =
    elim (Runs-Good env asked w t utf8 g runs) [
      | inl good ↦ inl (
          Stands-Readable env.codec t.segments path (given env asked n p.lsn) p law
            (receive-Answer env asked n t p good h))
      | inr failed ↦ inr failed
    ]
