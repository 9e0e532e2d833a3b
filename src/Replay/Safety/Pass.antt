-- ===== src/Replay/Safety/Pass.antt =====
-- One pass of `replay_once_inner` in src/wal/replay.rs over the entries that it has read.
use ingest4x.Prelude.{
  ℕ, ◌+◌, ◌-◌, ◌^◌, ◌≤◌, ◌≡◌, ◌≢◌, refl, sym, inl, inr, Bool, true, false, Option, none, some, List,
  [], append-nil, All, arith, ==_eq,
}
use ingest4x.Prelude.Int.{wrap_add}
use ingest4x.Result.{Result, ok, err}
use ingest4x.Wal.Record.{WalPosition, WalEntry}
use ingest4x.Wal.Issue.{ReplayIssue}
use ingest4x.Replay.Env.{ReplayEnv}
use ingest4x.Replay.State.{
  ReplayState, continue, pure, ◌>>◌, ◌>>=◌, CheckpointFlushPolicy, flush_pending_checkpoint,
  cleanup_covered_segments,
}
use ingest4x.Replay.Flush.{allow_defer, replay_batch_to_sinks}
use ingest4x.Replay.Once.{Locals, next_lsn, finish, replay_loop, replay_entries}
use ingest4x.Replay.Safety.{
  IsSafe, IsSafe-Step, flush_pending_checkpoint-Step, cleanup_covered_segments-Step,
}
use ingest4x.Replay.Safety.Marks.{entries_of}
use ingest4x.Replay.Safety.Batch.{Flushed, replay_batch_to_sinks-Flushed}
use ingest4x.Replay.Safety.Forced.{Under, Ready, Stopped, Ready-Fresh}
use ingest4x.Replay.Safety.Loop.{IsRead, Waits, Ended, replay_loop-Ended}

start-Ready :
    (env : ReplayEnv) (start : Option WalPosition) (s : ReplayState env.Value) (floor next : ℕ)
    → s.checkpoint ≡ start
    → s.pending_checkpoint ≡ none
    → Under floor start
    → floor ≤ next
    → Ready env start [] next [] s
unfolding entries_of
start-Ready env start s floor next h p u l = record {
  passed = [];
  split = refl;
  safe = record {
    settled = tt;
    at_frontier = rw (p, h);
    before = [];
    after = [];
    split = refl;
    at_checkpoint = h;
  };
  plans = tt;
  floor = floor;
  floor_le = l;
  start_under = u;
  passed_under = tt;
  batch_over = tt;
  batch_under = tt;
}

start-Waits :
    (env : ReplayEnv) (start : Option WalPosition) (s : ReplayState env.Value)
    → s.checkpoint ≡ start
    → s.pending_checkpoint ≡ none
    → Under (2 ^ 64 - 1) start
    → Waits env start []
        (record { expected_lsn = next_lsn env start; replay_batch = []; replayed = 0 })
        s
start-Waits env none s h p u = (
  0,
  start-Ready env none s 0 0 h p tt (omega arith),
  λ k q. start-Ready env none s 0 k h p tt (omega arith),
)
start-Waits env (some w) s h p u =
    let next : wrap_add w.lsn 1 ≡ w.lsn + 1 = omega (arith, u) in
    (
      w.lsn + 1,
      start-Ready env (some w) s (w.lsn + 1) (w.lsn + 1) h p (omega arith) (omega arith),
      λ k q.
          start-Ready env (some w) s (w.lsn + 1) k h p (omega arith)
            (omega (arith, ==_eq k (wrap_add w.lsn 1) q, next)),
    )

module _ (env : ReplayEnv) (start : Option WalPosition) where
  open env use {Value}

  -- The checkpoint is safe for a part of the entries from the first on, and for all of them if the pass
  -- answers that it replayed some.
  pub record Passed (entries : List WalEntry) (r : Result ReplayIssue ℕ) (t : ReplayState Value)
      : Type 0 where
    pub part : Stopped env start entries t
    pub whole : (n : ℕ) → r ≡ ok n → n ≢ 0 → IsSafe env start entries t

  IsSafe-Passed :
      (entries : List WalEntry) (r : Result ReplayIssue ℕ) (t : ReplayState Value)
      → IsSafe env start entries t
      → Passed entries r t
  IsSafe-Passed entries r t i = record {
    part = record { passed = entries; rest = []; split = sym (append-nil entries); safe = i };
    whole = λ n h k. i;
  }

  Stopped-Passed :
      (entries : List WalEntry) (issue : ReplayIssue) (t : ReplayState Value)
      → Stopped env start entries t
      → Passed entries (err issue) t
  Stopped-Passed entries issue t i = record { part = i; whole = λ n h k. absurd (err_not_ok h) }
    where
      err_not_ok : {x : ReplayIssue} {n : ℕ} → ◌≡◌ {A = Result ReplayIssue ℕ} (err x) (ok n) → ⊥
      err_not_ok h = cc

  finish-Passed :
      (entries : List WalEntry) (policy : CheckpointFlushPolicy) (n : ℕ) (t : ReplayState Value)
      → IsSafe env start entries t
      → (let r = finish env policy n true t in Passed entries r.0 r.1)
  finish-Passed entries policy n t i =
      go (flush_pending_checkpoint env t)
        (IsSafe-Step env start entries t _ i (flush_pending_checkpoint-Step env t))
    where
      cleaned :
          (r : Result ReplayIssue (Unit {0}) × ReplayState Value)
          → IsSafe env start entries r.1
          → (let q = continue r.0 (λ _. pure n) r.1 in Passed entries q.0 q.1)
      cleaned (err x, u) k = IsSafe-Passed entries _ u k
      cleaned (ok x, u) k = IsSafe-Passed entries _ u k

      go :
          (r : Result ReplayIssue (Unit {0}) × ReplayState Value)
          → IsSafe env start entries r.1
          → (let q = continue r.0 (λ _. cleanup_covered_segments env >> pure n) r.1 in
              Passed entries q.0 q.1)
      go (err x, u) k = IsSafe-Passed entries _ u k
      go (ok x, u) k =
          cleaned (cleanup_covered_segments env u)
            (IsSafe-Step env start entries u _ k (cleanup_covered_segments-Step env u))

  last_batch-Passed :
      (entries : List WalEntry) (policy : CheckpointFlushPolicy) (next : ℕ) (l : Locals Value)
      (s : ReplayState Value)
      → Ready env start entries next l.replay_batch s
      → (let r =
            (replay_batch_to_sinks env policy l.replay_batch allow_defer
                >>= finish env policy l.replayed)
              s in
          Passed entries r.0 r.1)
  last_batch-Passed entries policy next l s i =
      go (replay_batch_to_sinks env policy l.replay_batch allow_defer s) (
        replay_batch_to_sinks-Flushed env policy start i.passed l.replay_batch allow_defer s i.safe
          (Ready-Fresh env start entries next l.replay_batch s i) i.plans)
    where
      part : (t : ReplayState Value) → IsSafe env start i.passed t → Stopped env start entries t
      part t k = record {
        passed = i.passed;
        rest = entries_of l.replay_batch;
        split = i.split;
        safe = k;
      }

      zero_or : {n : ℕ} → ◌≡◌ {A = Result ReplayIssue ℕ} (ok 0) (ok n) → n ≢ 0 → ⊥
      zero_or h k = k (let q : 0 ≡ _ = cc in sym q)

      go :
          (r : Result ReplayIssue Bool × ReplayState Value)
          → Flushed env start i.passed (entries_of l.replay_batch) r.0 r.1
          → (let q = continue r.0 (finish env policy l.replayed) r.1 in Passed entries q.0 q.1)
      go (ok true, t) k = finish-Passed entries policy l.replayed t (rw i.split k)
      go (ok false, t) k = record { part = part t k; whole = λ n h z. absurd (zero_or h z) }
      go (err x, t) (inl k) = Stopped-Passed entries x t (part t k)
      go (err x, t) (inr k) = IsSafe-Passed entries _ t (rw i.split k)

  -- Let the checkpoint stand at `start` with none pending, and let the position behind each entry have
  -- the LSN of the entry, all LSNs below 2 ^ 64 - 1. Whatever the scripts, the sinks and the disk answer,
  -- after the pass the checkpoint of the state stands at `start` or behind an entry such that this entry
  -- and all before it were delivered or put aside; if the pass answers that it replayed some, every
  -- entry was.
  pub replay_entries-Passed :
      (policy : CheckpointFlushPolicy) (entries : List WalEntry) (s : ReplayState Value)
      → s.checkpoint ≡ start
      → s.pending_checkpoint ≡ none
      → Under (2 ^ 64 - 1) start
      → All IsRead entries
      → (let r = replay_entries env policy entries (next_lsn env start) s in Passed entries r.0 r.1)
  unfolding replay_entries
  replay_entries-Passed policy entries s h p u a =
      go (replay_loop env policy entries _ s)
        (replay_loop-Ended env policy start entries [] _ s (start-Waits env start s h p u) a)
    where
      go :
          (r : Result ReplayIssue (Locals Value) × ReplayState Value)
          → Ended env policy start entries r.0 r.1
          → (let q =
                continue r.0
                  (λ l.
                    replay_batch_to_sinks env policy l.replay_batch allow_defer
                    >>= finish env policy l.replayed)
                  r.1 in
              Passed entries q.0 q.1)
      go (ok l, t) k = last_batch-Passed entries policy k.0 l t k.1
      go (err x, t) k = Stopped-Passed entries x t k
