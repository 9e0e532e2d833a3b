-- ===== src/Replay/Safety/Batch.antt =====
-- `replay_batch_to_sinks` of src/wal/replay.rs: what holds after a batch, whatever its outcome.
use ingest4x.Prelude.{
  ◌+◌, ◌≡◌, ◌⊎◌, inl, inr, refl, sym, ap, ◌∙◌, subst, Bool, true, false, Option, List, [], ◌∷◌,
  ◌++◌, append-nil, append_assoc, All, Bool-cases,
}
use ingest4x.Text.{Text}
use ingest4x.Result.{Result, ok, err}
use ingest4x.Wal.Record.{WalPosition, WalEntry}
use ingest4x.Wal.Issue.{ReplayIssue}
use ingest4x.Replay.Env.{ReplayEnv}
use ingest4x.Replay.State.{
  ReplayState, continue, pure, ◌>>◌, CheckpointFlushPolicy, should_flush_checkpoint,
  flush_pending_checkpoint, cleanup_covered_segments,
}
use ingest4x.Replay.Group.{keys}
use ingest4x.Replay.Flush.{
  ReplayEntryDeliveries, FlushMode, collect, deferred, send_map, mark_batch, settle, without,
  flush_items, unless_deferred, replay_batch_to_sinks,
}
use ingest4x.Replay.Flush.Delivered.{Grows-refl}
use ingest4x.Replay.Safety.{
  behind, behind-append, Settled, IsSafe, Step, IsSafe-Step, Step-same, All-Settled_mono,
  flush_pending_checkpoint-Step, cleanup_covered_segments-Step,
}
use ingest4x.Replay.Safety.Marks.{
  entries_of, All-append, Fresh, mark_batch-Marked, Planned, Quiet, Quiet-Step, deferred-Quiet,
  send_map-Quiet, batch_delivered,
}

module _ (env : ReplayEnv) where
  open env use {Value}

  -- What a flush of `es` leaves: sent whole, put off, or an error before or after the sends.
  abbrev pub Flushed :
      Option WalPosition
      → List WalEntry
      → List WalEntry
      → Result ReplayIssue Bool
      → ReplayState Value
      → Type 0
  Flushed start passed es (ok true) t = IsSafe env start (passed ++ es) t
  Flushed start passed es (ok false) t = IsSafe env start passed t
  Flushed start passed es (err e) t = IsSafe env start passed t ⊎ IsSafe env start (passed ++ es) t

  abbrev pub marked :
      List Text → List (ReplayEntryDeliveries Value) → ReplayState Value → ReplayState Value
  marked names batch s =
      mark_batch env batch
        (record s { pending_since_by_sink = without env names s.pending_since_by_sink })

  abbrev pub counted : ReplayState Value → ReplayState Value
  counted s = record s { calls = s.calls + 1 }

  settle-Flushed :
      (policy : CheckpointFlushPolicy) (names : List Text) (start : Option WalPosition)
      (passed : List WalEntry) (batch : List (ReplayEntryDeliveries Value)) (s : ReplayState Value)
      → IsSafe env start (passed ++ entries_of batch) (marked names batch s)
      → Flushed start passed
          (entries_of batch)
          (settle env policy names batch s).0
          (settle env policy names batch s).1
  unfolding settle
  settle-Flushed policy names start passed batch s safe =
      let s' = marked names batch s in
      elim (Bool-cases (
        should_flush_checkpoint policy s'.pending_records s'.pending_bytes s'.last_checkpoint_flush
          (env.instant s'.calls))) [
            | inl e ↦ rw e (
                flushed_whole (flush_pending_checkpoint env (counted s'))
                  (flush_pending_checkpoint-Step env (counted s')))
            | inr e ↦ rw e counted_safe
          ]
    where
      counted_safe : IsSafe env start (passed ++ entries_of batch) (counted (marked names batch s))
      counted_safe =
          IsSafe-Step env start _ (marked names batch s) _ safe
            (Step-same env (marked names batch s) _ (Grows-refl _) refl refl refl)

      then_cleaned :
          (r : Result ReplayIssue (Unit {0}) × ReplayState Value)
          → IsSafe env start (passed ++ entries_of batch) r.1
          → Flushed start passed
              (entries_of batch)
              (continue r.0 (λ _. pure true) r.1).0
              (continue r.0 (λ _. pure true) r.1).1
      then_cleaned (err e, t) i = inr i
      then_cleaned (ok x, t) i = i

      flushed_whole :
          (r : Result ReplayIssue (Unit {0}) × ReplayState Value)
          → Step env (counted (marked names batch s)) r.1
          → (let k = continue r.0 (λ _. cleanup_covered_segments env >> pure true) r.1 in
              Flushed start passed (entries_of batch) k.0 k.1)
      flushed_whole (err e, t) st = inr (IsSafe-Step env start _ _ t counted_safe st)
      flushed_whole (ok x, t) st = then_cleaned (cleanup_covered_segments env t) (
          IsSafe-Step env start _ t _ (IsSafe-Step env start _ _ t counted_safe st)
            (cleanup_covered_segments-Step env t))

  -- The batch is sent: it is settled, and the checkpoint that is due stands behind it.
  marked-IsSafe :
      (names : List Text) (start : Option WalPosition) (passed : List WalEntry)
      (batch : List (ReplayEntryDeliveries Value)) (s : ReplayState Value)
      → IsSafe env start passed s
      → All (Fresh s.checkpoint) batch
      → All (Settled env (marked names batch s)) (entries_of batch)
      → IsSafe env start (passed ++ entries_of batch) (marked names batch s)
  marked-IsSafe names start passed batch s i fresh done =
      let s' = record s { pending_since_by_sink = without env names s.pending_since_by_sink } in
      let k = mark_batch-Marked env batch s' fresh in
      record {
        settled =
            All-append (Settled env (marked names batch s)) passed (entries_of batch)
              (All-Settled_mono env s _ passed ([], rw k.same_sinks (sym (append-nil _)))
                ([], rw k.same_quarantined (sym (append-nil _))) i.settled)
              done;
        at_frontier =
            k.moved_frontier
            ∙ ap (λ t. behind t (entries_of batch)) i.at_frontier
            ∙ sym (behind-append start passed (entries_of batch));
        before = i.before;
        after = i.after ++ entries_of batch;
        split =
            ap (λ t. t ++ entries_of batch) i.split
            ∙ append_assoc i.before i.after (entries_of batch);
        at_checkpoint = k.same_checkpoint ∙ i.at_checkpoint;
      }

  sent_Flushed :
      (policy : CheckpointFlushPolicy) (c : Option WalPosition) (start : Option WalPosition)
      (passed : List WalEntry) (batch : List (ReplayEntryDeliveries Value)) (s : ReplayState Value)
      → IsSafe env start passed s
      → s.checkpoint ≡ c
      → All (Fresh c) batch
      → All (Planned env) batch
      → (let k =
            (send_map env (collect env c batch [])
                >> settle env policy (keys (collect env c batch [])) batch)
              s in
          Flushed start passed (entries_of batch) k.0 k.1)
  sent_Flushed policy c start passed batch s i same fresh plans =
      go (send_map env (collect env c batch []) s).0 refl
    where
      sent : ReplayState Value
      sent = (send_map env (collect env c batch []) s).1

      quiet : Quiet env s sent
      quiet = send_map-Quiet env (collect env c batch []) s

      safe : IsSafe env start passed sent
      safe = IsSafe-Step env start passed s sent i (Quiet-Step env s sent quiet)

      fresh' : All (Fresh sent.checkpoint) batch
      fresh' = subst (λ t. All (Fresh t) batch) (sym (quiet.same_checkpoint ∙ same)) fresh

      go :
          (r : Result ReplayIssue (Unit {0}))
          → (send_map env (collect env c batch []) s).0 ≡ r
          → (let k =
                continue r (λ _. settle env policy (keys (collect env c batch [])) batch) sent in
              Flushed start passed (entries_of batch) k.0 k.1)
      go (err e) h = inl safe
      go (ok x) h =
          let names = keys (collect env c batch []) in
          settle-Flushed policy names start passed batch sent (
            marked-IsSafe names start passed batch sent safe fresh' (
              batch_delivered env c batch batch s (marked names batch sent) x h
                (mark_batch-Marked env batch _ fresh').same_sinks (λ j o. o) fresh plans))

  flush_items-Flushed :
      (policy : CheckpointFlushPolicy) (start : Option WalPosition) (passed : List WalEntry)
      (batch : List (ReplayEntryDeliveries Value)) (mode : FlushMode) (s : ReplayState Value)
      → IsSafe env start passed s
      → All (Fresh s.checkpoint) batch
      → All (Planned env) batch
      → (let k = flush_items env policy (collect env s.checkpoint batch []) batch mode s in
          Flushed start passed (entries_of batch) k.0 k.1)
  unfolding flush_items
  flush_items-Flushed policy start passed batch mode s i fresh plans =
      go (deferred env mode (collect env s.checkpoint batch []) s).0
    where
      waited : ReplayState Value
      waited = (deferred env mode (collect env s.checkpoint batch []) s).1

      quiet : Quiet env s waited
      quiet = deferred-Quiet env mode (collect env s.checkpoint batch []) s

      safe : IsSafe env start passed waited
      safe = IsSafe-Step env start passed s waited i (Quiet-Step env s waited quiet)

      go :
          (r : Result ReplayIssue Bool)
          → (let k =
                continue r
                  (unless_deferred env policy (collect env s.checkpoint batch []) batch)
                  waited in
              Flushed start passed (entries_of batch) k.0 k.1)
      go (err e) = inl safe
      go (ok true) = safe
      go (ok false) =
          sent_Flushed policy s.checkpoint start passed batch waited safe quiet.same_checkpoint
            fresh plans

  pub replay_batch_to_sinks-Flushed :
      (policy : CheckpointFlushPolicy) (start : Option WalPosition) (passed : List WalEntry)
      (batch : List (ReplayEntryDeliveries Value)) (mode : FlushMode) (s : ReplayState Value)
      → IsSafe env start passed s
      → All (Fresh s.checkpoint) batch
      → All (Planned env) batch
      → Flushed start passed
          (entries_of batch)
          (replay_batch_to_sinks env policy batch mode s).0
          (replay_batch_to_sinks env policy batch mode s).1
  unfolding replay_batch_to_sinks entries_of
  replay_batch_to_sinks-Flushed policy start passed [] mode s i fresh plans =
      rw (append-nil passed) i
  replay_batch_to_sinks-Flushed policy start passed (e ∷ es) mode s i fresh plans =
      flush_items-Flushed policy start passed (e ∷ es) mode s i fresh plans
