-- ===== src/Wal/Writer/Restart.antt =====
-- A record that was acknowledged, a crash, and the next start: `append` and `WalWriter::new` of
-- src/wal/mod.rs.
use ingest4x.Prelude.{
  ℕ, ◌≤◌, ◌≡◌, ◌⊎◌, inl, inr, refl, sym, ap, ◌∙◌, subst, true, false, Option, none, some, [], ◌++◌,
  append-nil, append_assoc, ltb, length, length-append, ◌==◌, ==_eq, Bool-cases, arith,
}
use ingest4x.Bytes.{Bytes}
use ingest4x.Text.{Text, is_utf8}
use ingest4x.Result.{Result, ok, err, IoError}
use ingest4x.Wal.Record.{WalRecord, WalPosition, Codec, IsCodec}
use ingest4x.Wal.Segment.{segment_header_len}
use ingest4x.Wal.Scan.Image.{image, Tail, frame-pos}
use ingest4x.Wal.Log.{Segments}
use ingest4x.Wal.Checkpoint.{WalCheckpoint}
use ingest4x.Wal.Startup.{recover_active_segment_id}
use ingest4x.Wal.Startup.Fresh.{recover_active_segment_id_last}
use ingest4x.Wal.Files.{find_file}
use ingest4x.Wal.Writer.State.{WriterEnv, WriterState}
use ingest4x.Wal.Writer.Flush.{buffer_lsn, receive}
use ingest4x.Wal.Writer.Ensures.{Ensures}
use ingest4x.Wal.Writer.Active.{Active, Stands}
use ingest4x.Wal.Writer.Invariant.{IsWriter}
use ingest4x.Wal.Writer.Runs.{given, Good, Runs, RollBackFailed}
use ingest4x.Wal.Writer.Calls.{Runs-Good}
use ingest4x.Wal.Writer.Answers.{Readable, Stands-Readable, receive-Answer}
use ingest4x.Wal.Writer.Open.{open_writer}
use ingest4x.Wal.Writer.Start.{find_file-IdsUpTo}
use ingest4x.Wal.Writer.Kept.{
  Any, Here, open_writer-Here, ensure_segment_file-other, repair_active-other,
  ensure_segment_file-active, repair_active-active,
}

-- The files as a crash leaves them: at most a proper part of the next frame is behind the active one.
pub record Left (c : Codec) (w : WriterState) (ss : Segments) : Type 0 where
  pub tail : Bytes
  pub is_tail : Tail c tail
  pub active_file :
      (f : Bytes)
      → find_file w.segment_id w.segments ≡ some f
      → find_file w.segment_id ss ≡ some (f ++ tail)
  pub others : (i : ℕ) → (w.segment_id == i) ≡ false → find_file i ss ≡ find_file i w.segments

some_value : {a b : Bytes} → ◌≡◌ {A = Option Bytes} (some a) (some b) → a ≡ b
some_value h = cc

none_not_some : {a : Bytes} → ◌≡◌ {A = Option Bytes} none (some a) → ⊥
none_not_some h = cc

map_value :
    {P R : WriterState → Type 0} (x : Result IoError (Unit {0}) × WriterState)
    → ((t : WriterState) → P t → R t)
    → Ensures (λ u. P) Any x.0 x.1
    → Ensures (λ u. R) Any x.0 x.1
map_value (ok u, t) f h = f t h
map_value (err e, t) f h = h

module _ (env : WriterEnv) (checkpoint : Option WalCheckpoint) (interval : Result Text ℕ)
    (w z : WriterState) (law : IsCodec env.codec) (h : IsWriter env w)
    (left : Left env.codec w z.segments) (r : WalRecord) (p : WalPosition)
    (stands : Stands env.codec w.segments r p) where
  abbrev id : ℕ
  id = recover_active_segment_id z.segments checkpoint

  abbrev AfterStart : (WriterState → Type 0) → Type 0
  AfterStart P =
      Ensures (λ (u : Unit {0}) t. P t) Any (open_writer env checkpoint interval z).0
        (open_writer env checkpoint interval z).1

  abbrev held : Bytes
  held = stands.before ++ (stands.frame ++ stands.after)

  -- A segment that has a file is not behind the one that the start takes.
  not_behind : (i : ℕ) (f : Bytes) → find_file i z.segments ≡ some f → i ≤ id
  not_behind i f e = elim (Bool-cases (ltb id i)) [
    | inl q ↦
        let gone : find_file i z.segments ≡ none =
          find_file-IdsUpTo z.segments id i
            ((recover_active_segment_id_last z.segments checkpoint).0) (ground arith) in
        absurd (none_not_some (sym gone ∙ e))
    | inr q ↦ ground arith
  ]

  not_ahead : p.segment ≤ w.segment_id
  not_ahead = elim (Bool-cases (ltb w.segment_id p.segment)) [
    | inl q ↦ absurd (none_not_some (sym (h.is_last p.segment (ground arith)) ∙ stands.in_file))
    | inr q ↦ ground arith
  ]

  stand_again :
      (more : Bytes) (t : WriterState)
      → Here p.segment (held ++ more) tt t
      → Stands env.codec t.segments r p
  stand_again more t k = record {
    is_typed = stands.is_typed;
    frame = stands.frame;
    is_frame = stands.is_frame;
    before = stands.before;
    after = stands.after ++ more;
    in_file =
        k
        ∙ ap some (
            append_assoc stands.before (stands.frame ++ stands.after) more
            ∙ ap (λ t. stands.before ++ t) (append_assoc stands.frame stands.after more));
    at_offset = stands.at_offset;
    behind_header = stands.behind_header;
    same_lsn = stands.same_lsn;
  }

  in_left : (more : Bytes) × Here p.segment (held ++ more) tt z
  in_left = elim (Bool-cases (w.segment_id == p.segment)) [
    | inl e ↦
        let same : w.segment_id ≡ p.segment = ==_eq w.segment_id p.segment e in
        (
          left.tail,
          subst (λ i. find_file i z.segments ≡ some (held ++ left.tail)) same
              (left.active_file held (ap (λ i. find_file i w.segments) same ∙ stands.in_file)),
        )
    | inr e ↦ ([], left.others p.segment e ∙ stands.in_file ∙ ap some (sym (append-nil held)))
  ]

  in_other : (id == p.segment) ≡ false → AfterStart (λ t. Stands env.codec t.segments r p)
  in_other apart =
      let (more, here) = in_left in
      map_value (open_writer env checkpoint interval z) (stand_again more) (
        open_writer-Here env id p.segment (held ++ more) (held ++ more) checkpoint interval z refl
          (λ next. ensure_segment_file-other env id p.segment (held ++ more) apart next z here)
          (repair_active-other env id p.segment (held ++ more) apart))

  in_active : id ≡ p.segment → AfterStart (λ t. Stands env.codec t.segments r p)
  in_active e =
      map_value (open_writer env checkpoint interval z)
        (λ t k. stand_again [] t (
          ap (λ i. find_file i t.segments) same
          ∙ k
          ∙ ap some (sym is_held ∙ sym (append-nil held))))
        (open_writer-Here env w.segment_id w.segment_id whole kept checkpoint interval z (e ∙ same)
          (λ next.
            ensure_segment_file-active env law w.segment_id a.start_lsn a.header_bytes left.tail
              a.writes a.is_segment left.is_tail longer next z here)
          (repair_active-active env law w.segment_id a.start_lsn a.header_bytes left.tail a.writes
            a.is_segment left.is_tail longer))
    where
      a : Active env.codec w.segments w.segment_id w.offset (buffer_lsn w.buffered w.next_lsn)
      a = h.active

      kept : Bytes
      kept = a.header_bytes ++ image a.writes

      whole : Bytes
      whole = a.header_bytes ++ (image a.writes ++ left.tail)

      here : Here w.segment_id whole tt z
      here =
          left.active_file kept a.file
          ∙ ap some (append_assoc a.header_bytes (image a.writes) left.tail)

      same : p.segment ≡ w.segment_id
      same =
          let above : w.segment_id ≤ id = not_behind w.segment_id whole here in
          omega (arith, above, e, not_ahead)

      is_held : held ≡ kept
      is_held = some_value (sym stands.in_file ∙ ap (λ i. find_file i w.segments) same ∙ a.file)

      longer : (length whole == segment_header_len) ≡ false
      longer =
          let long : 554 ≤ length whole = omega (
            arith,
            ap length is_held,
            length-append stands.before (stands.frame ++ stands.after),
            length-append stands.frame stands.after,
            length-append a.header_bytes (image a.writes),
            length-append a.header_bytes (image a.writes ++ left.tail),
            length-append (image a.writes) left.tail,
            stands.at_offset,
            stands.behind_header,
            frame-pos env.codec law [] r stands.frame stands.is_typed stands.is_frame,
          ) in
          ground (arith, long)

  pub open_writer-Stands : AfterStart (λ t. Stands env.codec t.segments r p)
  open_writer-Stands = elim (Bool-cases (id == p.segment)) [
    | inl e ↦ in_active (==_eq id p.segment e)
    | inr e ↦ in_other e
  ]

-- Let the codec keep its promise, and let the writer's state stand when a run begins. After any sequence of
-- calls of `append` and of flushes, whatever the operating system answers, let the caller on channel `n`
-- have received a position, and let the process then die, so that its files stay, with at most a proper
-- part of a next frame behind the active one. If the next start succeeds, with whatever checkpoint and
-- whatever the operating system answers to it, a reader that goes to the position finds the record
-- which the caller handed over; or a step of the run began a flush whose writing failed and in whose
-- roll-back a call of the operating system failed.
pub restart-Readable :
    (env : WriterEnv) (asked : ℕ → WalRecord) (path : Text) (checkpoint : Option WalCheckpoint)
    (interval : Result Text ℕ) (u w z : WriterState) (n : ℕ) (p : WalPosition)
    → IsCodec env.codec
    → is_utf8 env.node_id ≡ true
    → Good env asked u
    → (runs : Runs env asked u w) → receive n w ≡ some (ok p)
    → Left env.codec w z.segments
    → Ensures
        (λ (u : Unit {0}) t. Readable env.codec t.segments path (given env asked n p.lsn) p)
        (λ t. Unit {0})
        (open_writer env checkpoint interval z).0
        (open_writer env checkpoint interval z).1
      ⊎ RollBackFailed env asked runs
restart-Readable env asked path checkpoint interval u w z n p law utf8 good runs received left =
    elim (Runs-Good env asked u w utf8 good runs) [
      | inl g ↦ inl (
          map_value (open_writer env checkpoint interval z)
            (λ t. Stands-Readable env.codec t.segments path (given env asked n p.lsn) p law)
            (open_writer-Stands env checkpoint interval w z law g.writer left
              (given env asked n p.lsn) p (receive-Answer env asked n w p g received)))
      | inr failed ↦ inr failed
    ]
