-- ===== src/Replay/Safety.antt =====
-- That the checkpoint passes only entries that were delivered or put aside: the notions, and the
-- steps that leave it true.
pub mod Marks
pub mod Batch
pub mod Forced
pub mod Loop
pub mod Pass
use ingest4x.Prelude.{
  ℕ, zero, suc, ◌+◌, ◌<◌, ◌≤◌, ◌≡◌, ◌⊎◌, inl, inr, refl, sym, ap, ◌∙◌, subst, Bool, true, false,
  Option, none, some, List, [], ◌∷◌, ◌++◌, append-nil, append_assoc, arith, All, or_some,
}
use ingest4x.Text.{Text}
use ingest4x.Result.{Result, ok, err, map_err, IoError}
use ingest4x.Wal.Record.{WalPosition, WalEntry}
use ingest4x.Wal.Issue.{ReplayIssue}
use ingest4x.Wal.Checkpoint.{CheckpointFiles}
use ingest4x.Replay.Env.{ReplayEnv}
use ingest4x.Replay.State.{
  ReplayState, Exec, continue, ◌>>=◌, ◌>>◌, flush_at, flushed, flush_pending_checkpoint, cleanup_at,
  cleanup_covered_segments,
}
use ingest4x.Replay.Group.{process_record, group_deliveries_by_sink}
use ingest4x.Replay.Flush.Delivered.{
  Occurs, Grows, Grows-refl, Grows-trans, Grows-Occurs, Delivered, Delivered-Grows,
}

-- The position that the next flush of the checkpoint writes.
abbrev pub frontier : {V : Type 0} → ReplayState V → Option WalPosition
frontier s = or_some s.pending_checkpoint s.checkpoint

-- The position behind the last of the entries.
abbrev pub behind : Option WalPosition → List WalEntry → Option WalPosition
behind start [] = start
behind start (e ∷ es) = behind (some e.next_position) es

pub behind-append :
    (start : Option WalPosition) (xs ys : List WalEntry)
    → behind start (xs ++ ys) ≡ behind (behind start xs) ys
behind-append start [] ys = refl
behind-append start (x ∷ xs) ys = behind-append (some x.next_position) xs ys

module _ (env : ReplayEnv) where
  open env use {Value}

  -- What a record is to be delivered as: the processor's deliveries, by sink.
  abbrev pub IsPlanned : WalEntry → List (Text × List Value) → Type 0
  IsPlanned e m =
      (ds : List (Text × Value)) × (process_record env e.entry_record ≡ ok ds)
      × (group_deliveries_by_sink env ds ≡ ok m)

  -- Every event that the processor emits for the entry was accepted by the sink that it names.
  pub record IsDelivered (s : ReplayState Value) (e : WalEntry) : Type 0 where
    pub plan : List (Text × List Value)
    pub is_plan : IsPlanned e plan
    pub arrived :
        (name : Text) (vs : List Value) (v : Value)
        → Occurs (name, vs) plan
        → Occurs v vs
        → Delivered s.sinks.sent name v

  -- The entry was delivered, or it stands in the quarantine log.
  abbrev pub Settled : ReplayState Value → WalEntry → Type 0
  Settled s e = IsDelivered s e ⊎ ((issue : ReplayIssue) × Occurs (e, issue) s.quarantined)

  -- Of the entries read behind `start`, those of `passed` are settled, the next checkpoint stands
  -- behind the last of them, and the checkpoint stands behind a prefix of them.
  pub record IsSafe (start : Option WalPosition) (passed : List WalEntry) (s : ReplayState Value)
      : Type 0 where
    pub settled : All (Settled s) passed
    pub at_frontier : frontier s ≡ behind start passed
    pub before : List WalEntry
    pub after : List WalEntry
    pub split : passed ≡ before ++ after
    pub at_checkpoint : s.checkpoint ≡ behind start before

  -- A step that sends, logs, or flushes the checkpoint that is due.
  pub record Step (s t : ReplayState Value) : Type 0 where
    pub sent : Grows s.sinks.sent t.sinks.sent
    pub aside : Grows s.quarantined t.quarantined
    pub same_frontier : frontier t ≡ frontier s
    pub moved : (t.checkpoint ≡ s.checkpoint) ⊎ (t.checkpoint ≡ frontier s)

  pub Step-trans : (s t u : ReplayState Value) → Step s t → Step t u → Step s u
  Step-trans s t u p q = record {
    sent = Grows-trans _ _ _ p.sent q.sent;
    aside = Grows-trans _ _ _ p.aside q.aside;
    same_frontier = q.same_frontier ∙ p.same_frontier;
    moved = elim (q.moved) [
      | inl e ↦ elim (p.moved) [ inl f ↦ inl (e ∙ f) | inr f ↦ inr (e ∙ f) ]
      | inr e ↦ inr (e ∙ p.same_frontier)
    ];
  }

  pub Settled-mono :
      (s t : ReplayState Value) (e : WalEntry)
      → Grows s.sinks.sent t.sinks.sent
      → Grows s.quarantined t.quarantined
      → Settled s e
      → Settled t e
  Settled-mono s t e g h (inl d) = inl (record {
    plan = d.plan;
    is_plan = d.is_plan;
    arrived = λ name vs v o p. Delivered-Grows _ _ name v g (d.arrived name vs v o p);
  })
  Settled-mono s t e g h (inr (issue, o)) = inr (issue, Grows-Occurs (e, issue) _ _ h o)

  pub All-Settled_mono :
      (s t : ReplayState Value) (es : List WalEntry)
      → Grows s.sinks.sent t.sinks.sent
      → Grows s.quarantined t.quarantined
      → All (Settled s) es
      → All (Settled t) es
  All-Settled_mono s t [] g h a = tt
  All-Settled_mono s t (e ∷ es) g h a =
      (Settled-mono s t e g h a.0, All-Settled_mono s t es g h a.1)

  pub IsSafe-Step :
      (start : Option WalPosition) (passed : List WalEntry) (s t : ReplayState Value)
      → IsSafe start passed s
      → Step s t
      → IsSafe start passed t
  IsSafe-Step start passed s t i p = elim (p.moved) [
    | inl e ↦ record {
      settled = All-Settled_mono s t passed p.sent p.aside i.settled;
      at_frontier = p.same_frontier ∙ i.at_frontier;
      before = i.before;
      after = i.after;
      split = i.split;
      at_checkpoint = e ∙ i.at_checkpoint;
    }
    | inr e ↦ record {
      settled = All-Settled_mono s t passed p.sent p.aside i.settled;
      at_frontier = p.same_frontier ∙ i.at_frontier;
      before = passed;
      after = [];
      split = sym (append-nil passed);
      at_checkpoint = e ∙ i.at_frontier;
    }
  ]

  -- A step that touches neither the checkpoint nor the logs.
  pub Step-same :
      (s t : ReplayState Value)
      → Grows s.sinks.sent t.sinks.sent
      → t.quarantined ≡ s.quarantined
      → t.checkpoint ≡ s.checkpoint
      → t.pending_checkpoint ≡ s.pending_checkpoint
      → Step s t
  Step-same s t g q c p = record {
    sent = g;
    aside = ([], q ∙ sym (append-nil s.quarantined));
    same_frontier = rw (p, c);
    moved = inl c;
  }

  flushed-Step :
      (p : WalPosition) (r : Result IoError (Unit {0}) × CheckpointFiles) (s : ReplayState Value)
      → s.pending_checkpoint ≡ some p
      → Step s (flushed env p r s).1
  flushed-Step p (err e, files) s h = Step-same s _ (Grows-refl _) refl refl refl
  flushed-Step p (ok x, files) s h = record {
    sent = Grows-refl _;
    aside = Grows-refl _;
    same_frontier = rw h;
    moved = inr (rw h);
  }

  pub flush_pending_checkpoint-Step :
      (s : ReplayState Value) → Step s (flush_pending_checkpoint env s).1
  unfolding flush_pending_checkpoint
  flush_pending_checkpoint-Step s = go s.pending_checkpoint refl
    where
      go : (o : Option WalPosition) → s.pending_checkpoint ≡ o → Step s (flush_at env o s).1
      go none h = Step-same s s (Grows-refl _) refl refl refl
      go (some p) h = flushed-Step p _ s h

  pub cleanup_covered_segments-Step :
      (s : ReplayState Value) → Step s (cleanup_covered_segments env s).1
  unfolding cleanup_covered_segments
  cleanup_covered_segments-Step s = go s.checkpoint
    where
      go : (o : Option WalPosition) → Step s (cleanup_at env o s).1
      go none = Step-same s s (Grows-refl _) refl refl refl
      go (some p) = Step-same s _ (Grows-refl _) refl refl refl
