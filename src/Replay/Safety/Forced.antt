-- ===== src/Replay/Safety/Forced.antt =====
-- What the loop of `replay_once_inner` in src/wal/replay.rs keeps between two entries, and that a
-- forced flush of its batch keeps it.
use ingest4x.Prelude.{
  ℕ, ◌≤◌, ◌<◌, ◌≡◌, ◌≢◌, inl, inr, refl, sym, subst, Bool, true, false, Option, none, some, List,
  [], ◌∷◌, ◌++◌, append-nil, All, Bool-cases, arith,
}
use ingest4x.Text.{Text}
use ingest4x.Result.{Result, ok, err}
use ingest4x.Wal.Record.{WalPosition, WalEntry}
use ingest4x.Wal.Issue.{ReplayIssue}
use ingest4x.Replay.Env.{ReplayEnv}
use ingest4x.Replay.Send.{SinkDeliveryEvent}
use ingest4x.Replay.State.{
  ReplayState, continue, pure, ◌>>◌, CheckpointFlushPolicy, checkpoint_covers_entry,
  should_flush_checkpoint, flush_pending_checkpoint, cleanup_covered_segments,
}
use ingest4x.Replay.Group.{keys}
use ingest4x.Replay.Flush.{
  ReplayEntryDeliveries, force, collect, deferred, send_map, settle, flush_items,
  replay_batch_to_sinks,
}
use ingest4x.Replay.Safety.{behind, IsSafe}
use ingest4x.Replay.Safety.Marks.{entries_of, All-append, Fresh, Planned}
use ingest4x.Replay.Safety.Batch.{marked, counted, Flushed, replay_batch_to_sinks-Flushed}

-- The position lies below the LSN.
abbrev pub Under : ℕ → Option WalPosition → Type 0
Under x none = Unit
Under x (some p) = p.lsn < x

abbrev pub EndsUnder : ℕ → WalEntry → Type 0
EndsUnder x e = e.next_position.lsn < x

behind-Under :
    (x : ℕ) (start : Option WalPosition) (es : List WalEntry)
    → Under x start
    → All (EndsUnder x) es
    → Under x (behind start es)
behind-Under x start [] u a = u
behind-Under x start (e ∷ es) u a = behind-Under x (some e.next_position) es a.0 a.1

All-left : {A : Type 0} (P : A → Type 0) (xs ys : List A) → All P (xs ++ ys) → All P xs
All-left P [] ys a = tt
All-left P (x ∷ xs) ys a = (a.0, All-left P xs ys a.1)

Under-Fresh :
    {V : Type 0} (x : ℕ) (c : Option WalPosition) (batch : List (ReplayEntryDeliveries V))
    → Under x c
    → All (λ i. x ≤ i.entry.position.lsn) batch
    → All (Fresh c) batch
unfolding checkpoint_covers_entry
Under-Fresh x c [] u a = tt
Under-Fresh x none (i ∷ is) u a = (refl, Under-Fresh x none is u a.1)
Under-Fresh x (some p) (i ∷ is) u a = (ground arith, Under-Fresh x (some p) is u a.1)

ends_of :
    {V : Type 0} (x : ℕ) (batch : List (ReplayEntryDeliveries V))
    → All (λ i. EndsUnder x i.entry) batch
    → All (EndsUnder x) (entries_of batch)
unfolding entries_of
ends_of x [] a = tt
ends_of x (i ∷ is) a = (a.0, ends_of x is a.1)

pub raise : (x y : ℕ) (es : List WalEntry) → x ≤ y → All (EndsUnder x) es → All (EndsUnder y) es
raise x y [] h a = tt
raise x y (e ∷ es) h a = (omega arith, raise x y es h a.1)

pub raise_start : (x y : ℕ) (o : Option WalPosition) → x ≤ y → Under x o → Under y o
raise_start x y none h u = tt
raise_start x y (some p) h u = omega arith

module _ (env : ReplayEnv) where
  open env use {Value}

  -- Between two entries: `done` were read and the next LSN is `next`; some are settled, the others stand
  -- in the batch with what they are to be delivered as.
  pub record Ready (start : Option WalPosition) (done : List WalEntry) (next : ℕ)
      (batch : List (ReplayEntryDeliveries Value)) (s : ReplayState Value) : Type 0 where
    pub passed : List WalEntry
    pub split : done ≡ passed ++ entries_of batch
    pub safe : IsSafe env start passed s
    pub plans : All (Planned env) batch
    pub floor : ℕ
    pub floor_le : floor ≤ next
    pub start_under : Under floor start
    pub passed_under : All (EndsUnder floor) passed
    pub batch_over : All (λ i. floor ≤ i.entry.position.lsn) batch
    pub batch_under : All (λ i. EndsUnder next i.entry) batch

  pub Ready-Fresh :
      (start : Option WalPosition) (done : List WalEntry) (next : ℕ)
      (batch : List (ReplayEntryDeliveries Value)) (s : ReplayState Value)
      → Ready start done next batch s
      → All (Fresh s.checkpoint) batch
  Ready-Fresh start done next batch s i =
      Under-Fresh i.floor s.checkpoint batch
        (subst (Under i.floor) (sym i.safe.at_checkpoint) (
          behind-Under i.floor start i.safe.before i.start_under (
            All-left (EndsUnder i.floor) i.safe.before i.safe.after
              (subst (All (EndsUnder i.floor)) i.safe.split i.passed_under))))
        i.batch_over

  -- The replay ended: the checkpoint is safe for a part of the entries from the first on.
  pub record Stopped (start : Option WalPosition) (done : List WalEntry) (s : ReplayState Value)
      : Type 0 where
    pub passed : List WalEntry
    pub rest : List WalEntry
    pub split : done ≡ passed ++ rest
    pub safe : IsSafe env start passed s

  module _ (policy : CheckpointFlushPolicy) where
    settle_true :
        (names : List Text) (batch : List (ReplayEntryDeliveries Value)) (s : ReplayState Value)
        → (settle env policy names batch s).0 ≢ ok false
    unfolding settle
    settle_true names batch s =
        let s' = marked env names batch s in
        elim (Bool-cases (
          should_flush_checkpoint policy s'.pending_records s'.pending_bytes
            s'.last_checkpoint_flush (env.instant s'.calls))) [
              | inl e ↦ rw e (go (flush_pending_checkpoint env (counted env s')))
              | inr e ↦ rw e (λ h. cc)
            ]
      where
        then_cleaned :
            (r : Result ReplayIssue (Unit {0}) × ReplayState Value)
            → (continue r.0 (λ _. pure true) r.1).0 ≢ ok false
        then_cleaned (err e, t) h = cc
        then_cleaned (ok x, t) h = cc

        go :
            (r : Result ReplayIssue (Unit {0}) × ReplayState Value)
            → (continue r.0 (λ _. cleanup_covered_segments env >> pure true) r.1).0 ≢ ok false
        go (err e, t) h = cc
        go (ok x, t) h = then_cleaned (cleanup_covered_segments env t) h

    forced_true :
        (batch : List (ReplayEntryDeliveries Value)) (s : ReplayState Value)
        → (replay_batch_to_sinks env policy batch force s).0 ≢ ok false
    unfolding replay_batch_to_sinks flush_items deferred
    forced_true [] s h = cc
    forced_true (i ∷ is) s h = go (send_map env m s) h
      where
        m : List (Text × List (SinkDeliveryEvent Value))
        m = collect env s.checkpoint (i ∷ is) []

        go :
            (r : Result ReplayIssue (Unit {0}) × ReplayState Value)
            → (continue r.0 (λ _. settle env policy (keys m) (i ∷ is)) r.1).0 ≢ ok false
        go (err e, t) h = cc
        go (ok x, t) h = settle_true (keys m) (i ∷ is) t h

    -- What a forced flush leaves of the loop.
    abbrev pub Emptied :
        Option WalPosition
        → List WalEntry
        → ℕ
        → Result ReplayIssue Bool
        → ReplayState Value
        → Type 0
    Emptied start done next (ok b) t = Ready start done next [] t
    Emptied start done next (err e) t = Stopped start done t

    pub forced-Emptied :
        (start : Option WalPosition) (done : List WalEntry) (next : ℕ)
        (batch : List (ReplayEntryDeliveries Value)) (s : ReplayState Value)
        → Ready start done next batch s
        → (let r = replay_batch_to_sinks env policy batch force s in
            Emptied start done next r.0 r.1)
    unfolding entries_of
    forced-Emptied start done next batch s i =
        let r = replay_batch_to_sinks env policy batch force s in
        go r.0 refl (
          replay_batch_to_sinks-Flushed env policy start i.passed batch force s i.safe
            (Ready-Fresh start done next batch s i) i.plans)
      where
        go :
            let t = (replay_batch_to_sinks env policy batch force s).1 in
            (o : Result ReplayIssue Bool)
            → (replay_batch_to_sinks env policy batch force s).0 ≡ o
            → Flushed env start i.passed (entries_of batch) o t
            → Emptied start done next o t
        go (ok true) e f = record {
          passed = done;
          split = sym (append-nil done);
          safe = rw i.split f;
          plans = tt;
          floor = next;
          floor_le = omega arith;
          start_under = raise_start i.floor next start i.floor_le i.start_under;
          passed_under = rw i.split (
              All-append (EndsUnder next) i.passed (entries_of batch)
                (raise i.floor next i.passed i.floor_le i.passed_under)
                (ends_of next batch i.batch_under));
          batch_over = tt;
          batch_under = tt;
        }
        go (ok false) e f = absurd (forced_true batch s e)
        go (err x) e (inl f) = record {
          passed = i.passed;
          rest = entries_of batch;
          split = i.split;
          safe = f;
        }
        go (err x) e (inr f) = record {
          passed = done;
          rest = [];
          split = sym (append-nil done);
          safe = rw i.split f;
        }
