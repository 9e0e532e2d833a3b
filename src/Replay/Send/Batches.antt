-- ===== src/Replay/Send/Batches.antt =====
-- The batches that a sink gets: a partition of the events in order, within the policy's bounds.
use ingest4x.Prelude.{
  ℕ, suc, ◌≤◌, ◌≡◌, ◌⊎◌, refl, ap, Option, none, some, List, [], ◌∷◌, ◌++◌, length, or_some, All,
}
use ingest4x.Text.{Text}
use ingest4x.Result.{Result, ok, err}
use ingest4x.Replay.Env.{sat_add}
use ingest4x.Replay.Send.{
  SinkDeliveryEvent, SinkBatchPolicy, SentBatch, Sinks, SendError, refused, panicked,
}

module _ {V : Type 0} where
  abbrev pub events_of : List (SinkDeliveryEvent V) → List V
  events_of [] = []
  events_of (d ∷ ds) = d.event ∷ events_of ds

  abbrev pub bytes_from : ℕ → List (SinkDeliveryEvent V) → ℕ
  bytes_from n [] = n
  bytes_from n (d ∷ ds) = bytes_from (sat_add n d.bytes) ds

  abbrev pub head_lsn : List (SinkDeliveryEvent V) → Option ℕ
  head_lsn [] = none
  head_lsn (d ∷ ds) = some d.lsn

  abbrev pub head_node : List (SinkDeliveryEvent V) → Option Text
  head_node [] = none
  head_node (d ∷ ds) = some d.node_id

  abbrev pub last_lsn : Option ℕ → List (SinkDeliveryEvent V) → Option ℕ
  last_lsn o [] = o
  last_lsn o (d ∷ ds) = last_lsn (some d.lsn) ds

  pub events_of-append :
      (xs ys : List (SinkDeliveryEvent V)) → events_of (xs ++ ys) ≡ events_of xs ++ events_of ys
  events_of-append [] ys = refl
  events_of-append (x ∷ xs) ys = ap (λ t. x.event ∷ t) (events_of-append xs ys)

  pub bytes_from-append :
      (n : ℕ) (xs : List (SinkDeliveryEvent V)) (d : SinkDeliveryEvent V)
      → bytes_from n (xs ++ (d ∷ [])) ≡ sat_add (bytes_from n xs) d.bytes
  bytes_from-append n [] d = refl
  bytes_from-append n (x ∷ xs) d = bytes_from-append (sat_add n x.bytes) xs d

  pub head_lsn-append :
      (xs : List (SinkDeliveryEvent V)) (d : SinkDeliveryEvent V)
      → head_lsn (xs ++ (d ∷ [])) ≡ or_some (head_lsn xs) (some d.lsn)
  head_lsn-append [] d = refl
  head_lsn-append (x ∷ xs) d = refl

  pub head_node-append :
      (xs : List (SinkDeliveryEvent V)) (d : SinkDeliveryEvent V)
      → head_node (xs ++ (d ∷ [])) ≡ or_some (head_node xs) (some d.node_id)
  head_node-append [] d = refl
  head_node-append (x ∷ xs) d = refl

  pub last_lsn-append :
      (o : Option ℕ) (xs : List (SinkDeliveryEvent V)) (d : SinkDeliveryEvent V)
      → last_lsn o (xs ++ (d ∷ [])) ≡ some d.lsn
  last_lsn-append o [] d = refl
  last_lsn-append o (x ∷ xs) d = last_lsn-append (some x.lsn) xs d

  pub length-events_of : (xs : List (SinkDeliveryEvent V)) → length (events_of xs) ≡ length xs
  length-events_of [] = refl
  length-events_of (x ∷ xs) = ap suc (length-events_of xs)

-- A batch that was sent, with the deliveries that it is made of.
pub record Run (V : Type 0) : Type 0 where
  pub items : List (SinkDeliveryEvent V)
  pub batch : SentBatch V

-- Such a batch has the events of its deliveries in order and the first and last of their LSNs. It
-- is not empty, keeps to the number of events, and passes the number of bytes by one event alone.
pub record IsRun (V : Type 0) (sink : Text) (policy : SinkBatchPolicy) (run : Run V) : Type 0 where
  pub to_sink : run.batch.sink ≡ sink
  pub same_events : run.batch.events ≡ events_of run.items
  pub starts : some run.batch.metadata.lsn_start ≡ head_lsn run.items
  pub ends : some run.batch.metadata.lsn_end ≡ last_lsn none run.items
  pub few : length run.items ≤ policy.max_events
  pub small : (bytes_from 0 run.items ≤ policy.max_bytes) ⊎ (length run.items ≡ 1)

module _ {V : Type 0} where
  abbrev pub run_items : List (Run V) → List (SinkDeliveryEvent V)
  run_items [] = []
  run_items (r ∷ rs) = r.items ++ run_items rs

  abbrev pub run_batches : List (Run V) → List (SentBatch V)
  run_batches [] = []
  run_batches (r ∷ rs) = r.batch ∷ run_batches rs

  -- What is not sent when the function returns: nothing, or the deliveries from the batch on that
  -- the sink refused, whose first LSN the error names.
  abbrev pub Unsent : Result SendError (Unit {0}) → List (SinkDeliveryEvent V) → Type 0
  Unsent (ok x) rest = rest ≡ []
  Unsent (err (refused lsn chain)) rest = head_lsn rest ≡ some lsn
  Unsent (err panicked) rest = ⊥

pub record Outcome {V : Type 0} (sink : Text) (policy : SinkBatchPolicy)
    (events : List (SinkDeliveryEvent V)) (before : Sinks V)
    (result : Result SendError (Unit {0}) × Sinks V) : Type 0 where
  pub runs : List (Run V)
  pub rest : List (SinkDeliveryEvent V)
  pub partition : run_items runs ++ rest ≡ events
  pub logged : result.1.sent ≡ before.sent ++ run_batches runs
  pub bounded : All (IsRun V sink policy) runs
  pub unsent : Unsent result.0 rest
