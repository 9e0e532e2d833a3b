-- ===== src/Replay/Send/Loop.antt =====
-- The loop of `send_sink_events_in_batches` keeps to its batches.
use ingest4x.Prelude.{
  ℕ, ◌≤◌, ◌≡◌, inl, inr, refl, sym, ap, ◌∙◌, subst, true, false, some, List, [], ◌∷◌, ◌++◌,
  is_empty, append_assoc, append-nil, arith, Bool-cases,
}
use ingest4x.Text.{Text}
use ingest4x.Result.{Result, ok, err}
use ingest4x.Replay.Env.{ReplayEnv, EventSinkBatchMetadata}
use ingest4x.Replay.Send.{
  SinkDeliveryEvent, SinkBatchPolicy, Sinks, SendError, refused, Batch, empty_batch,
  send_sink_batch, would_exceed, make_room, push_delivery, cleared, after_send, send_loop,
  send_sink_events_in_batches,
}
use ingest4x.Replay.Send.Batches.{events_of, last_lsn, Run, IsRun, run_items, run_batches, Outcome}
use ingest4x.Replay.Send.Open.{
  IsOpen, metadata_of, run_of, send_cases, last_some, send_open_lem, run_of-IsRun,
  push_delivery-IsOpen, cleared-IsOpen, cleared_has_room,
}

module _ (env : ReplayEnv) (sink : Text) (policy : SinkBatchPolicy)
    (room : 1 ≤ policy.max_events) where
  open env use {Value, send_error}

  -- An open batch that has to be sent first is not empty.
  not_empty :
      (b : Batch Value) (d : SinkDeliveryEvent Value)
      → IsOpen policy [] b
      → would_exceed env policy b d ≡ true
      → ⊥
  unfolding would_exceed
  not_empty b d o h = ground (arith, o.events_eq)

  -- The last batch.
  send_rest :
      (items : List (SinkDeliveryEvent Value)) (b : Batch Value) (node : Text) (w : Sinks Value)
      → IsOpen policy items b
      → Outcome sink policy items w (send_loop env sink policy (some node) [] b w)
  unfolding send_loop
  send_rest [] b node w o = rw (o.events_eq) (record {
    runs = [];
    rest = [];
    partition = refl;
    logged = sym (append-nil w.sent);
    bounded = tt;
    unsent = refl;
  })
  send_rest (d ∷ ds) b node w o =
      let (l, e) = last_some env sink policy room d.lsn ds in
      let m : EventSinkBatchMetadata = metadata_of env sink policy room node d.lsn l in
      let sends : send_loop env sink policy (some node) [] b w
          ≡ send_sink_batch env sink (events_of (d ∷ ds)) m w =
        rw (ap is_empty o.events_eq) (send_open_lem env sink policy room d ds b node w l o e) in
      subst (Outcome sink policy (d ∷ ds) w) (sym sends)
        (elim (send_cases env sink policy room (events_of (d ∷ ds)) m w) [
          | inl (r, sent) ↦ record {
            runs = run_of env sink policy room d ds node l ∷ [];
            rest = [];
            partition = rw (append-nil, append-nil);
            logged = sent;
            bounded = (run_of-IsRun env sink policy room d ds b node l o e, tt);
            unsent = rw r refl;
          }
          | inr (chain, r, sent) ↦ record {
            runs = [];
            rest = d ∷ ds;
            partition = refl;
            logged = rw append-nil sent;
            bounded = tt;
            unsent = rw r refl;
          }
        ])

  module _ (node : Text) (d : SinkDeliveryEvent Value) (ds : List (SinkDeliveryEvent Value))
      (b : Batch Value) (w : Sinks Value) where
    step_sent :
        (b' : Batch Value) (w' : Sinks Value)
        → make_room env sink policy b d w ≡ (ok b', w')
        → send_loop env sink policy (some node) (d ∷ ds) b w
          ≡ send_loop env sink policy (some node) ds (push_delivery env b' d) w'
    unfolding send_loop
    step_sent b' w' h = rw (h, send_loop) (rw h)

    step_refused :
        (x : SendError) (w' : Sinks Value)
        → make_room env sink policy b d w ≡ (err x, w')
        → send_loop env sink policy (some node) (d ∷ ds) b w ≡ (err x, w')
    unfolding send_loop
    step_refused x w' h = rw (h, send_loop) (rw h)

    step_fits : would_exceed env policy b d ≡ false → make_room env sink policy b d w ≡ (ok b, w)
    unfolding make_room
    step_fits h = rw h

    step_full :
        (x : SinkDeliveryEvent Value) (xs : List (SinkDeliveryEvent Value)) (l : ℕ)
        → would_exceed env policy b d ≡ true
        → IsOpen policy (x ∷ xs) b
        → last_lsn (some x.lsn) xs ≡ some l
        → make_room env sink policy b d w ≡ (
            let r =
              send_sink_batch env sink
                (events_of (x ∷ xs))
                (metadata_of env sink policy room x.node_id x.lsn l)
                w in
            (after_send env b r.0, r.1))
    unfolding make_room
    step_full x xs l h o e =
        rw h (rw (o.node_eq) (rw (send_open_lem env sink policy room x xs b x.node_id w l o e)))

  prepend :
      {r : Result SendError (Unit {0}) × Sinks Value} (run : Run Value)
      (events : List (SinkDeliveryEvent Value)) (w w' : Sinks Value)
      → IsRun Value sink policy run
      → w'.sent ≡ w.sent ++ (run.batch ∷ [])
      → Outcome sink policy events w' r
      → Outcome sink policy (run.items ++ events) w r
  prepend run events w w' i sent o = record {
    runs = run ∷ o.runs;
    rest = o.rest;
    partition =
        append_assoc run.items (run_items o.runs) o.rest ∙ ap (λ t. run.items ++ t) o.partition;
    logged = o.logged ∙ rw sent (append_assoc w.sent (run.batch ∷ []) (run_batches o.runs));
    bounded = (i, o.bounded);
    unsent = o.unsent;
  }

  -- The open batch does not take the delivery `d`: it is sent, and `d` opens the next.
  send_full :
      (items : List (SinkDeliveryEvent Value)) (d : SinkDeliveryEvent Value)
      (ds : List (SinkDeliveryEvent Value)) (b : Batch Value) (node : Text) (w : Sinks Value)
      → IsOpen policy items b
      → would_exceed env policy b d ≡ true
      → ((b' : Batch Value) (w' : Sinks Value)
          → IsOpen policy (d ∷ []) b'
          → Outcome sink policy (d ∷ ds) w' (send_loop env sink policy (some node) ds b' w'))
      → Outcome sink policy
          (items ++ (d ∷ ds))
          w
          (send_loop env sink policy (some node) (d ∷ ds) b w)
  send_full [] d ds b node w o h ih = absurd (not_empty b d o h)
  send_full (x ∷ xs) d ds b node w o h ih =
      let (l, e) = last_some env sink policy room x.lsn xs in
      let m : EventSinkBatchMetadata = metadata_of env sink policy room x.node_id x.lsn l in
      let made = step_full node d ds b w x xs l h o e in
      let w' : Sinks Value = (send_sink_batch env sink (events_of (x ∷ xs)) m w).1 in
      elim (send_cases env sink policy room (events_of (x ∷ xs)) m w) [
        | inl (r, sent) ↦
            subst (Outcome sink policy (x ∷ xs ++ (d ∷ ds)) w)
              (sym (
                step_sent node d ds b w (cleared env b) w'
                  (made ∙ ap (λ t. (after_send env b t, w')) r)))
              (prepend (run_of env sink policy room x xs x.node_id l) (d ∷ ds) w w'
                (run_of-IsRun env sink policy room x xs b x.node_id l o e) sent
                (ih (push_delivery env (cleared env b) d) w' (
                  push_delivery-IsOpen env sink policy room [] (cleared env b) d
                    (cleared-IsOpen env sink policy room b)
                    (cleared_has_room env sink policy room b d))))
        | inr (chain, r, sent) ↦
            subst (Outcome sink policy (x ∷ xs ++ (d ∷ ds)) w)
              (sym (
                step_refused node d ds b w (refused x.lsn chain) w'
                  (made ∙ ap (λ t. (after_send env b t, w')) r)))
              (record {
                runs = [];
                rest = x ∷ xs ++ (d ∷ ds);
                partition = refl;
                logged = rw append-nil sent;
                bounded = tt;
                unsent = refl;
              })
      ]

  pub send_loop-Outcome :
      (ds items : List (SinkDeliveryEvent Value)) (b : Batch Value) (node : Text) (w : Sinks Value)
      → IsOpen policy items b
      → Outcome sink policy (items ++ ds) w (send_loop env sink policy (some node) ds b w)
  send_loop-Outcome [] items b node w o = rw append-nil (send_rest items b node w o)
  send_loop-Outcome (d ∷ ds) items b node w o = elim (Bool-cases (would_exceed env policy b d)) [
    | inl full ↦
        send_full items d ds b node w o full
          (λ b' w' o'. send_loop-Outcome ds (d ∷ []) b' node w' o')
    | inr fits ↦ rw (step_sent node d ds b w b w (step_fits node d ds b w fits)) (
        rw (append_assoc items (d ∷ []) ds) at (
          send_loop-Outcome ds (items ++ (d ∷ [])) (push_delivery env b d) node w
            (push_delivery-IsOpen env sink policy room items b d o fits)))
  ]

-- Whatever the sinks answer, the events handed over are cut into batches in order, each within the
-- policy (one event alone may pass the number of bytes): all batches are accepted and logged, or the
-- sink refused one, the error names its first LSN, and only the batches before it were logged. No
-- `expect` fails.
pub send_sink_events_in_batches-Outcome :
    (env : ReplayEnv) (sink : Text) (policy : SinkBatchPolicy)
    (events : List (SinkDeliveryEvent env.Value)) (w : Sinks env.Value)
    → 1 ≤ policy.max_events
    → Outcome sink policy events w (send_sink_events_in_batches env sink events policy w)
unfolding send_sink_events_in_batches send_loop empty_batch
send_sink_events_in_batches-Outcome env sink policy [] w room = record {
  runs = [];
  rest = [];
  partition = refl;
  logged = sym (append-nil w.sent);
  bounded = tt;
  unsent = refl;
}
send_sink_events_in_batches-Outcome env sink policy (d ∷ ds) w room =
    send_loop-Outcome env sink policy room (d ∷ ds) [] empty_batch d.node_id w
      (cleared-IsOpen env sink policy room empty_batch)
