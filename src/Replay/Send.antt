-- ===== src/Replay/Send.antt =====
-- `send_sink_events_in_batches` and `send_sink_batch` of src/wal/replay.rs.
pub mod Batches
pub mod Open
pub mod Loop
use ingest4x.Prelude.{
  ℕ, zero, suc, ◌+◌, Bool, true, false, ◌&&◌, ◌||◌, not, Option, none, some, List, [], ◌∷◌, ◌++◌,
  length, leb, ltb, is_empty, or_some, if◌then◌else◌,
}
use ingest4x.Text.{Text}
use ingest4x.Result.{Result, ok, err}
use ingest4x.Replay.Env.{ReplayEnv, EventSinkBatchMetadata, sat_add}

pub record SinkDeliveryEvent (V : Type 0) : Type 0 where
  pub node_id : Text
  pub lsn : ℕ
  pub event : V
  pub bytes : ℕ

pub record SinkBatchPolicy : Type 0 where
  pub max_events : ℕ
  pub max_bytes : ℕ
  pub timeout : ℕ

-- A batch that a sink accepted.
pub record SentBatch (V : Type 0) : Type 0 where
  pub sink : Text
  pub events : List V
  pub metadata : EventSinkBatchMetadata

-- What the sinks have accepted, in order, and the number of calls of the outside world so far.
pub record Sinks (V : Type 0) : Type 0 where
  pub sent : List (SentBatch V)
  pub calls : ℕ

-- The pair `(u64, anyhow::Error)`, an error being the texts of its chain. `panicked` stands for a
-- failed `expect`.
pub data SendError : Type 0 where
  refused : ℕ → List Text → SendError
  panicked : SendError

-- The local variables of the loop.
pub record Batch (V : Type 0) : Type 0 where
  pub events : List V
  pub bytes : ℕ
  pub node_id : Option Text
  pub first_lsn : Option ℕ
  pub last_lsn : Option ℕ

pub empty_batch : {V : Type 0} → Batch V
empty_batch = record { events = []; bytes = 0; node_id = none; first_lsn = none; last_lsn = none }

module _ (env : ReplayEnv) where
  open env use {Value, send_error}

  abbrev answer :
      Option (List Text)
      → ℕ
      → SentBatch Value
      → Sinks Value
      → Result SendError (Unit {0}) × Sinks Value
  answer none lsn b w = (ok tt, record w { sent = w.sent ++ (b ∷ []) })
  answer (some chain) lsn b w = (err (refused lsn chain), w)

  -- `send_event_batch_to_sink` is one call of the outside world.
  pub send_sink_batch :
      Text
      → List Value
      → EventSinkBatchMetadata
      → Sinks Value
      → Result SendError (Unit {0}) × Sinks Value
  send_sink_batch sink events metadata w =
      answer (send_error w.calls) metadata.lsn_start
        (record { sink = sink; events = events; metadata = metadata })
        (record w { calls = w.calls + 1 })

  -- A send of the open batch, with the metadata that the loop has gathered.
  pub send_open :
      Text
      → List Value
      → Option Text
      → Option ℕ
      → Option ℕ
      → Sinks Value
      → Result SendError (Unit {0}) × Sinks Value
  send_open sink events (some node) (some first) (some last) w =
      send_sink_batch sink events (record { node_id = node; lsn_start = first; lsn_end = last }) w
  send_open sink events (some node) (some first) none w = (err panicked, w)
  send_open sink events (some node) none last w = (err panicked, w)
  send_open sink events none first last w = (err panicked, w)

  pub would_exceed : SinkBatchPolicy → Batch Value → SinkDeliveryEvent Value → Bool
  would_exceed policy b d =
      leb policy.max_events (length b.events)
      || (not (is_empty b.events) && ltb policy.max_bytes (sat_add b.bytes d.bytes))

  -- `batch_last_lsn` is not reset with the other variables.
  abbrev cleared : Batch Value → Batch Value
  cleared b = record b { events = []; bytes = 0; node_id = none; first_lsn = none }

  abbrev after_send : Batch Value → Result SendError (Unit {0}) → Result SendError (Batch Value)
  after_send b (ok x) = ok (cleared b)
  after_send b (err e) = err e

  pub make_room :
      Text
      → SinkBatchPolicy
      → Batch Value
      → SinkDeliveryEvent Value
      → Sinks Value
      → Result SendError (Batch Value) × Sinks Value
  make_room sink policy b d w =
      let r = send_open sink b.events b.node_id b.first_lsn b.last_lsn w in
      if would_exceed policy b d then (after_send b r.0, r.1) else (ok b, w)

  pub push_delivery : Batch Value → SinkDeliveryEvent Value → Batch Value
  push_delivery b d = record {
    events = b.events ++ (d.event ∷ []);
    bytes = sat_add b.bytes d.bytes;
    node_id = or_some b.node_id (some d.node_id);
    first_lsn = or_some b.first_lsn (some d.lsn);
    last_lsn = some d.lsn;
  }

  abbrev first_node : List (SinkDeliveryEvent Value) → Option Text
  first_node [] = none
  first_node (d ∷ ds) = some d.node_id

  -- `node` is `events[0].node_id`, which the last batch is sent with.
  pub send_loop :
      Text
      → SinkBatchPolicy
      → Option Text
      → List (SinkDeliveryEvent Value)
      → Batch Value
      → Sinks Value
      → Result SendError (Unit {0}) × Sinks Value
  send_loop sink policy node [] b w =
      if is_empty b.events
      then (ok tt, w)
      else send_open sink b.events node b.first_lsn b.last_lsn w
  send_loop sink policy node (d ∷ ds) b w =
      let r = make_room sink policy b d w in
      elim (r.0) [
        | err e ↦ (err e, r.1)
        | ok b' ↦ send_loop sink policy node ds (push_delivery b' d) (r.1)
      ]

  pub send_sink_events_in_batches :
      Text
      → List (SinkDeliveryEvent Value)
      → SinkBatchPolicy
      → Sinks Value
      → Result SendError (Unit {0}) × Sinks Value
  send_sink_events_in_batches sink events policy w =
      send_loop sink policy (first_node events) events empty_batch w
