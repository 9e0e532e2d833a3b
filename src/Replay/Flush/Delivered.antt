-- ===== src/Replay/Flush/Delivered.antt =====
-- That an event reached a sink, and that every event of a send that succeeds did.
use ingest4x.Prelude.{
  ◌≤◌, ◌≡◌, ◌⊎◌, inl, inr, refl, sym, ap, ◌∙◌, subst, Option, List, [], ◌∷◌, ◌++◌, append-nil,
  append_assoc, All, arith,
}
use ingest4x.Text.{Text}
use ingest4x.Result.{Result, ok, err, map_err}
use ingest4x.Wal.Issue.{ReplayIssue}
use ingest4x.Replay.Env.{ReplayEnv, EventSinkBatchConfig}
use ingest4x.Replay.Send.{
  SinkDeliveryEvent, SinkBatchPolicy, SentBatch, Sinks, SendError, send_sink_events_in_batches,
}
use ingest4x.Replay.Send.Batches.{events_of, Run, IsRun, run_items, run_batches, Unsent, Outcome}
use ingest4x.Replay.Send.Loop.{send_sink_events_in_batches-Outcome}
use ingest4x.Replay.Group.{get_list}
use ingest4x.Replay.Flush.{sink_batch_policy, send_issue, sent_with, send_all}

module _ {A : Type 0} where
  abbrev pub Occurs : A → List A → Type 0
  Occurs a [] = ⊥
  Occurs a (x ∷ xs) = (a ≡ x) ⊎ Occurs a xs

  pub Occurs-left : (a : A) (xs ys : List A) → Occurs a xs → Occurs a (xs ++ ys)
  Occurs-left a [] ys h = absurd h
  Occurs-left a (x ∷ xs) ys (inl e) = inl e
  Occurs-left a (x ∷ xs) ys (inr h) = inr (Occurs-left a xs ys h)

  pub Occurs-right : (a : A) (xs ys : List A) → Occurs a ys → Occurs a (xs ++ ys)
  Occurs-right a [] ys h = h
  Occurs-right a (x ∷ xs) ys h = inr (Occurs-right a xs ys h)

  pub Occurs-split : (a : A) (xs ys : List A) → Occurs a (xs ++ ys) → Occurs a xs ⊎ Occurs a ys
  Occurs-split a [] ys h = inr h
  Occurs-split a (x ∷ xs) ys (inl e) = inl (inl e)
  Occurs-split a (x ∷ xs) ys (inr h) = elim (Occurs-split a xs ys h) [
    | inl k ↦ inl (inr k)
    | inr k ↦ inr k
  ]

  -- A list that was only appended to.
  abbrev pub Grows : List A → List A → Type 0
  Grows xs ys = (zs : List A) × (ys ≡ xs ++ zs)

  pub Grows-refl : (xs : List A) → Grows xs xs
  Grows-refl xs = ([], sym (append-nil xs))

  pub Grows-trans : (xs ys zs : List A) → Grows xs ys → Grows ys zs → Grows xs zs
  Grows-trans xs ys zs (us, p) (vs, q) = (us ++ vs, q ∙ rw p (append_assoc xs us vs))

  pub Grows-Occurs : (a : A) (xs ys : List A) → Grows xs ys → Occurs a xs → Occurs a ys
  Grows-Occurs a xs ys (zs, p) h = rw p (Occurs-left a xs zs h)

-- A sink accepted a batch that holds the event.
pub record Delivered {V : Type 0} (sent : List (SentBatch V)) (name : Text) (v : V) : Type 0 where
  pub batch : SentBatch V
  pub logged : Occurs batch sent
  pub to_sink : batch.sink ≡ name
  pub holds : Occurs v batch.events

pub Delivered-mono :
    {V : Type 0} (sent sent' : List (SentBatch V)) (name : Text) (v : V)
    → ((b : SentBatch V) → Occurs b sent → Occurs b sent')
    → Delivered sent name v
    → Delivered sent' name v
Delivered-mono sent sent' name v g d = record {
  batch = d.batch;
  logged = g d.batch d.logged;
  to_sink = d.to_sink;
  holds = d.holds;
}

pub Delivered-Grows :
    {V : Type 0} (sent sent' : List (SentBatch V)) (name : Text) (v : V)
    → Grows sent sent'
    → Delivered sent name v
    → Delivered sent' name v
Delivered-Grows sent sent' name v g =
    Delivered-mono sent sent' name v (λ b. Grows-Occurs b sent sent' g)

module _ {V : Type 0} where
  Occurs-event :
      (d : SinkDeliveryEvent V) (ds : List (SinkDeliveryEvent V))
      → Occurs d ds
      → Occurs d.event (events_of ds)
  Occurs-event d [] h = absurd h
  Occurs-event d (x ∷ xs) (inl e) = inl (ap (λ (t : SinkDeliveryEvent V). t.event) e)
  Occurs-event d (x ∷ xs) (inr h) = inr (Occurs-event d xs h)

  runs_deliver :
      (sink : Text) (policy : SinkBatchPolicy) (runs : List (Run V)) (d : SinkDeliveryEvent V)
      → All (IsRun V sink policy) runs
      → Occurs d (run_items runs)
      → Delivered (run_batches runs) sink d.event
  runs_deliver sink policy [] d is h = absurd h
  runs_deliver sink policy (r ∷ rs) d (i, is) h = elim (Occurs-split d r.items (run_items rs) h) [
    | inl k ↦ record {
      batch = r.batch;
      logged = inl refl;
      to_sink = i.to_sink;
      holds = rw i.same_events (Occurs-event d r.items k);
    }
    | inr k ↦
        Delivered-mono (run_batches rs) (r.batch ∷ run_batches rs) sink d.event (λ b o. inr o)
          (runs_deliver sink policy rs d is k)
  ]

err_not_ok : {E : Type 0} {e : E} {x : Unit {0}} → ◌≡◌ {A = Result E (Unit {0})} (err e) (ok x) → ⊥
err_not_ok h = cc

module _ (env : ReplayEnv) where
  open env use {Value}

  pub sink_batch_policy-room :
      (o : Option EventSinkBatchConfig) (p : SinkBatchPolicy)
      → sink_batch_policy env o ≡ ok p
      → 1 ≤ p.max_events
  unfolding sink_batch_policy
  sink_batch_policy-room o p h = ground arith

  -- The log of the sinks only grows, and a send that succeeds delivers every event.
  record Sent (name : Text) (events : List (SinkDeliveryEvent Value)) (w : Sinks Value)
      (r : Result ReplayIssue (Unit {0}) × Sinks Value) : Type 0 where
    grows : Grows w.sent r.1.sent
    delivers :
        (x : Unit {0})
        → r.0 ≡ ok x
        → (d : SinkDeliveryEvent Value) → Occurs d events
        → Delivered r.1.sent name d.event

  Outcome-Sent :
      (name : Text) (events : List (SinkDeliveryEvent Value)) (p : SinkBatchPolicy)
      (w : Sinks Value)
      → 1 ≤ p.max_events
      → Sent name events w (sent_with env name events (ok p) w)
  Outcome-Sent name events p w room =
      let r = send_sink_events_in_batches env name events p w in
      go r.0 refl (send_sink_events_in_batches-Outcome env name p events w room)
    where
      go :
          (q : Result SendError (Unit {0}))
          → (send_sink_events_in_batches env name events p w).0 ≡ q
          → Outcome name p events w (send_sink_events_in_batches env name events p w)
          → Sent name events w (sent_with env name events (ok p) w)
      go (err x) e o = record {
        grows = (run_batches o.runs, o.logged);
        delivers = λ x' h d occ.
            let q : map_err (send_issue env name) (err x) ≡ ok x' =
              subst (λ t. map_err (send_issue env name) t ≡ ok x') e h in
            absurd (err_not_ok q);
      }
      go (ok y) e o = record {
        grows = (run_batches o.runs, o.logged);
        delivers = λ x h d occ.
            let rest : o.rest ≡ [] = subst (λ t. Unsent t o.rest) e o.unsent in
            let whole : events ≡ run_items o.runs =
              sym o.partition ∙ rw rest (append-nil (run_items o.runs)) in
            rw o.logged (
              Delivered-mono (run_batches o.runs) (w.sent ++ run_batches o.runs) name d.event
                (λ b. Occurs-right b w.sent (run_batches o.runs))
                (runs_deliver name p o.runs d o.bounded (subst (Occurs d) whole occ)));
      }

  abbrev policy_of : Text → Result ReplayIssue SinkBatchPolicy
  policy_of name = sink_batch_policy env (env.batch_config name)

  sent_with-Sent :
      (name : Text) (events : List (SinkDeliveryEvent Value)) (w : Sinks Value)
      → Sent name events w (sent_with env name events (policy_of name) w)
  sent_with-Sent name events w = go (policy_of name) refl
    where
      go :
          (p : Result ReplayIssue SinkBatchPolicy)
          → policy_of name ≡ p
          → Sent name events w (sent_with env name events p w)
      go (err e) h = record {
        grows = Grows-refl w.sent;
        delivers = λ x q d occ. absurd (err_not_ok q);
      }
      go (ok p) h =
          Outcome-Sent name events p w (sink_batch_policy-room (env.batch_config name) p h)

  -- `send_all` over the names: the log only grows, and if no sink refuses every event listed for
  -- one of the names is delivered.
  pub record AllSent (m : List (Text × List (SinkDeliveryEvent Value))) (names : List Text)
      (w : Sinks Value) (r : Result ReplayIssue (Unit {0}) × Sinks Value) : Type 0 where
    pub grows : Grows w.sent r.1.sent
    pub delivers :
        (x : Unit {0})
        → r.0 ≡ ok x
        → (name : Text) → Occurs name names
        → (d : SinkDeliveryEvent Value) → Occurs d (get_list name m)
        → Delivered r.1.sent name d.event

  pub send_all-AllSent :
      (m : List (Text × List (SinkDeliveryEvent Value))) (names : List Text) (w : Sinks Value)
      → AllSent m names w (send_all env m names w)
  unfolding send_all
  send_all-AllSent m [] w = record { grows = Grows-refl w.sent; delivers = λ x h name o. absurd o }
  send_all-AllSent m (n ∷ names) w =
      let r = sent_with env n (get_list n m) (policy_of n) w in
      go r.0 refl (sent_with-Sent n (get_list n m) w) (send_all-AllSent m names r.1)
    where
      go :
          let r = sent_with env n (get_list n m) (policy_of n) w in
          (q : Result ReplayIssue (Unit {0}))
          → r.0 ≡ q
          → Sent n (get_list n m) w r
          → AllSent m names r.1 (send_all env m names r.1)
          → AllSent m
              (n ∷ names)
              w
              (elim q [ err e ↦ (err e, r.1) | ok x ↦ send_all env m names r.1 ])
      go (err e) h s ih = record { grows = s.grows; delivers = λ x q. absurd (err_not_ok q) }
      go (ok y) h s ih = record {
        grows = Grows-trans _ _ _ s.grows ih.grows;
        delivers = λ x q name o d occ. elim o [
          | inl e ↦ Delivered-Grows _ _ name d.event ih.grows (
              subst
                (λ t. Delivered (sent_with env n (get_list n m) (policy_of n) w).1.sent t d.event)
                (sym e) (s.delivers y h d (subst (λ t. Occurs d (get_list t m)) e occ)))
          | inr o' ↦ ih.delivers x q name o' d occ
        ];
      }
