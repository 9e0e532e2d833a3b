-- ===== src/Replay/Send/Open.antt =====
-- One send of `send_sink_events_in_batches`, and what the open batch holds.
use ingest4x.Prelude.{
  ℕ, ◌≤◌, ◌≡◌, ◌≢◌, ◌⊎◌, inl, inr, refl, sym, ap, ◌∙◌, false, Option, none, some, List, [], ◌∷◌,
  ◌++◌, length, arith, length-append,
}
use ingest4x.Text.{Text}
use ingest4x.Result.{ok, err}
use ingest4x.Replay.Env.{ReplayEnv, EventSinkBatchMetadata}
use ingest4x.Replay.Send.{
  SinkDeliveryEvent, SinkBatchPolicy, Sinks, refused, Batch, send_sink_batch, send_open,
  would_exceed, push_delivery, cleared,
}
use ingest4x.Replay.Send.Batches.{
  events_of, bytes_from, head_lsn, head_node, last_lsn, events_of-append, bytes_from-append,
  head_lsn-append, head_node-append, last_lsn-append, length-events_of, Run, IsRun,
}

-- The open batch holds the deliveries `items`.
pub record IsOpen {V : Type 0} (policy : SinkBatchPolicy) (items : List (SinkDeliveryEvent V))
    (b : Batch V) : Type 0 where
  pub events_eq : b.events ≡ events_of items
  pub bytes_eq : b.bytes ≡ bytes_from 0 items
  pub node_eq : b.node_id ≡ head_node items
  pub first_eq : b.first_lsn ≡ head_lsn items
  pub last_eq : items ≢ [] → b.last_lsn ≡ last_lsn none items
  pub few : length items ≤ policy.max_events
  pub small : (bytes_from 0 items ≤ policy.max_bytes) ⊎ (length items ≤ 1)

module _ (env : ReplayEnv) (sink : Text) (policy : SinkBatchPolicy)
    (room : 1 ≤ policy.max_events) where
  open env use {Value, send_error}

  -- One send: the batch is appended to the log, or nothing is.
  pub send_cases :
      (events : List Value) (m : EventSinkBatchMetadata) (w : Sinks Value)
      → ((send_sink_batch env sink events m w).0 ≡ ok tt)
          × ((send_sink_batch env sink events m w).1.sent
              ≡ w.sent ++ (record { sink = sink; events = events; metadata = m } ∷ []))
        ⊎ ((chain : List Text) × ((send_sink_batch env sink events m w).0
              ≡ err (refused m.lsn_start chain))
            × ((send_sink_batch env sink events m w).1.sent ≡ w.sent))
  unfolding send_sink_batch
  send_cases events m w = go (send_error w.calls) refl
    where
      go :
          (o : Option (List Text))
          → send_error w.calls ≡ o
          → ((send_sink_batch env sink events m w).0 ≡ ok tt)
              × ((send_sink_batch env sink events m w).1.sent
                  ≡ w.sent ++ (record { sink = sink; events = events; metadata = m } ∷ []))
            ⊎ ((chain : List Text) × ((send_sink_batch env sink events m w).0
                  ≡ err (refused m.lsn_start chain))
                × ((send_sink_batch env sink events m w).1.sent ≡ w.sent))
      go none e = inl (rw (e, send_sink_batch), rw (e, send_sink_batch))
      go (some chain) e = inr (chain, rw (e, send_sink_batch), rw (e, send_sink_batch))

  pub last_some :
      (n : ℕ) (ds : List (SinkDeliveryEvent Value)) → (l : ℕ) × (last_lsn (some n) ds ≡ some l)
  last_some n [] = (n, refl)
  last_some n (d ∷ ds) = last_some d.lsn ds

  abbrev pub metadata_of : Text → ℕ → ℕ → EventSinkBatchMetadata
  metadata_of node first last = record { node_id = node; lsn_start = first; lsn_end = last }

  pub send_open_lem :
      (d : SinkDeliveryEvent Value) (ds : List (SinkDeliveryEvent Value)) (b : Batch Value)
      (node : Text) (w : Sinks Value) (l : ℕ)
      → IsOpen policy (d ∷ ds) b
      → last_lsn (some d.lsn) ds ≡ some l
      → send_open env sink b.events (some node) b.first_lsn b.last_lsn w
        ≡ send_sink_batch env sink (events_of (d ∷ ds)) (metadata_of node d.lsn l) w
  unfolding send_open
  send_open_lem d ds b node w l o e = rw (o.events_eq, o.first_eq, o.last_eq (λ p. cc) ∙ e)

  abbrev pub run_of :
      SinkDeliveryEvent Value → List (SinkDeliveryEvent Value) → Text → ℕ → Run Value
  run_of d ds node l = record {
    items = d ∷ ds;
    batch = record {
      sink = sink;
      events = events_of (d ∷ ds);
      metadata = metadata_of node d.lsn l;
    };
  }

  pub run_of-IsRun :
      (d : SinkDeliveryEvent Value) (ds : List (SinkDeliveryEvent Value)) (b : Batch Value)
      (node : Text) (l : ℕ)
      → IsOpen policy (d ∷ ds) b
      → last_lsn (some d.lsn) ds ≡ some l
      → IsRun Value sink policy (run_of d ds node l)
  run_of-IsRun d ds b node l o e = record {
    to_sink = refl;
    same_events = refl;
    starts = refl;
    ends = sym e;
    few = o.few;
    small = elim (o.small) [ inl h ↦ inl h | inr h ↦ inr (omega arith) ];
  }

  -- What the test leaves room for.
  small_after :
      (items : List (SinkDeliveryEvent Value)) (b : Batch Value) (d : SinkDeliveryEvent Value)
      → IsOpen policy items b
      → would_exceed env policy b d ≡ false
      → (bytes_from 0 (items ++ (d ∷ [])) ≤ policy.max_bytes) ⊎ (length (items ++ (d ∷ [])) ≤ 1)
  unfolding would_exceed
  small_after [] b d o h = inr (omega arith)
  small_after (x ∷ xs) b d o h =
      inl (rw (bytes_from-append 0 (x ∷ xs) d) (ground (arith, o.events_eq, o.bytes_eq)))

  -- The open batch after one more delivery, when it does not exceed the policy.
  pub push_delivery-IsOpen :
      (items : List (SinkDeliveryEvent Value)) (b : Batch Value) (d : SinkDeliveryEvent Value)
      → IsOpen policy items b
      → would_exceed env policy b d ≡ false
      → IsOpen policy (items ++ (d ∷ [])) (push_delivery env b d)
  unfolding push_delivery would_exceed
  push_delivery-IsOpen items b d o h = record {
    events_eq = rw (o.events_eq, events_of-append items (d ∷ []));
    bytes_eq = rw (o.bytes_eq, bytes_from-append 0 items d);
    node_eq = rw (o.node_eq, head_node-append items d);
    first_eq = rw (o.first_eq, head_lsn-append items d);
    last_eq = λ _. sym (last_lsn-append none items d);
    few =
        ground (arith, ap length o.events_eq, length-events_of items, length-append items (d ∷ []));
    small = small_after items b d o h;
  }

  pub cleared-IsOpen : (b : Batch Value) → IsOpen policy [] (cleared env b)
  cleared-IsOpen b = record {
    events_eq = refl;
    bytes_eq = refl;
    node_eq = refl;
    first_eq = refl;
    last_eq = λ h. absurd (h refl);
    few = omega arith;
    small = inr (omega arith);
  }

  pub cleared_has_room :
      (b : Batch Value) (d : SinkDeliveryEvent Value)
      → would_exceed env policy (cleared env b) d ≡ false
  unfolding would_exceed
  cleared_has_room b d = ground arith
