-- ===== src/Replay/Safety/Marks.antt =====
-- The steps of `replay_batch_to_sinks`: which of them leave the checkpoint alone, what the marks of a
-- batch move, and that a send without error delivers the batch.
use ingest4x.Prelude.{
  ℕ, ◌≡◌, inl, inr, refl, subst, false, Option, none, some, List, [], ◌∷◌, ◌++◌, All, Bool-cases,
  is_empty,
}
use ingest4x.Text.{Text}
use ingest4x.Result.{ok}
use ingest4x.Wal.Record.{WalPosition, WalEntry}
use ingest4x.Replay.Env.{ReplayEnv}
use ingest4x.Replay.Send.{SinkDeliveryEvent}
use ingest4x.Replay.State.{ReplayState, checkpoint_covers_entry, mark_checkpoint_pending}
use ingest4x.Replay.Group.{keys}
use ingest4x.Replay.Flush.{
  ReplayEntryDeliveries, FlushMode, allow_defer, force, collect, deferred, deferred_in, send_map,
  sort_names, mark_batch,
}
use ingest4x.Replay.Flush.Delivered.{Occurs, Grows, Grows-refl, Delivered, send_all-AllSent}
use ingest4x.Replay.Flush.Collect.{sort_names-Occurs, collect_lists}
use ingest4x.Replay.Safety.{frontier, behind, IsPlanned, Settled, Step, Step-same}

unfoldable pub entries_of : {V : Type 0} → List (ReplayEntryDeliveries V) → List WalEntry
entries_of [] = []
entries_of (i ∷ is) = i.entry ∷ entries_of is

module _ {A : Type 0} (P : A → Type 0) where
  pub All-append : (xs ys : List A) → All P xs → All P ys → All P (xs ++ ys)
  All-append [] ys a b = b
  All-append (x ∷ xs) ys a b = (a.0, All-append xs ys a.1 b)

-- The checkpoint of the state does not cover the item's entry.
abbrev pub Fresh : {V : Type 0} → Option WalPosition → ReplayEntryDeliveries V → Type 0
Fresh c i = checkpoint_covers_entry c i.entry ≡ false

module _ (env : ReplayEnv) where
  open env use {Value}

  pub record Marked (batch : List (ReplayEntryDeliveries Value)) (s t : ReplayState Value)
      : Type 0 where
    pub same_checkpoint : t.checkpoint ≡ s.checkpoint
    pub same_sinks : t.sinks ≡ s.sinks
    pub same_quarantined : t.quarantined ≡ s.quarantined
    pub moved_frontier : frontier t ≡ behind (frontier s) (entries_of batch)

  pub mark_batch-Marked :
      (batch : List (ReplayEntryDeliveries Value)) (s : ReplayState Value)
      → All (Fresh s.checkpoint) batch
      → Marked batch s (mark_batch env batch s)
  unfolding mark_batch mark_checkpoint_pending entries_of
  mark_batch-Marked [] s a = record {
    same_checkpoint = refl;
    same_sinks = refl;
    same_quarantined = refl;
    moved_frontier = refl;
  }
  mark_batch-Marked (i ∷ is) s a =
      let ih = mark_batch-Marked is (mark_checkpoint_pending s i.entry) a.1 in
      rw (a.0) (record {
        same_checkpoint = ih.same_checkpoint;
        same_sinks = ih.same_sinks;
        same_quarantined = ih.same_quarantined;
        moved_frontier = ih.moved_frontier;
      })

  -- The item holds what its entry is to be delivered as.
  abbrev pub Planned : ReplayEntryDeliveries Value → Type 0
  Planned i = IsPlanned env i.entry i.deliveries_by_sink

  -- Nothing but the log of the sinks changed, of what the safety of the replay is about.
  pub record Quiet (s t : ReplayState Value) : Type 0 where
    pub grows : Grows s.sinks.sent t.sinks.sent
    pub same_quarantined : t.quarantined ≡ s.quarantined
    pub same_checkpoint : t.checkpoint ≡ s.checkpoint
    pub same_pending : t.pending_checkpoint ≡ s.pending_checkpoint

  pub Quiet-refl : (s : ReplayState Value) → Quiet s s
  Quiet-refl s = record {
    grows = Grows-refl _;
    same_quarantined = refl;
    same_checkpoint = refl;
    same_pending = refl;
  }

  pub Quiet-Step : (s t : ReplayState Value) → Quiet s t → Step env s t
  Quiet-Step s t q = Step-same env s t q.grows q.same_quarantined q.same_checkpoint q.same_pending

  pub deferred-Quiet :
      (mode : FlushMode) (m : List (Text × List (SinkDeliveryEvent Value))) (s : ReplayState Value)
      → Quiet s (deferred env mode m s).1
  unfolding deferred
  deferred-Quiet force m s = Quiet-refl s
  deferred-Quiet allow_defer m s = elim (Bool-cases (is_empty m)) [
    | inl e ↦ rw e (Quiet-refl s)
    | inr e ↦ rw e (go s.pending_since_by_sink)
  ]
    where
      go : (o : Option (List (Text × ℕ))) → Quiet s (deferred_in env o m s).1
      go none = Quiet-refl s
      go (some pending) = record {
        grows = Grows-refl _;
        same_quarantined = refl;
        same_checkpoint = refl;
        same_pending = refl;
      }

  pub send_map-Quiet :
      (m : List (Text × List (SinkDeliveryEvent Value))) (s : ReplayState Value)
      → Quiet s (send_map env m s).1
  unfolding send_map
  send_map-Quiet m s = record {
    grows = (send_all-AllSent env m (sort_names (keys m)) s.sinks).grows;
    same_quarantined = refl;
    same_checkpoint = refl;
    same_pending = refl;
  }

  pub batch_delivered :
      (c : Option WalPosition) (batch some_of : List (ReplayEntryDeliveries Value))
      (s t : ReplayState Value) (x : Unit {0})
      → (send_map env (collect env c batch []) s).0 ≡ ok x
      → t.sinks ≡ (send_map env (collect env c batch []) s).1.sinks
      → ((i : ReplayEntryDeliveries Value) → Occurs i some_of → Occurs i batch)
      → All (Fresh c) some_of
      → All Planned some_of
      → All (Settled env t) (entries_of some_of)
  unfolding send_map entries_of
  batch_delivered c batch [] s t x h same sub f p = tt
  batch_delivered c batch (i ∷ is) s t x h same sub f p = (
    inl (record {
      plan = i.deliveries_by_sink;
      is_plan = p.0;
      arrived = λ name vs v o o'.
          let l = collect_lists env c batch [] i name vs v (sub i (inl refl)) f.0 o o' in
          rw same (
            subst (Delivered _ name) l.of_event (
              (send_all-AllSent env (collect env c batch []) _ s.sinks).delivers x h name
                (sort_names-Occurs name _ l.listed.key) l.delivery l.listed.value));
    }),
    batch_delivered c batch is s t x h same (λ j o. sub j (inr o)) f.1 p.1,
  )
