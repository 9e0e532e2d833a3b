-- ===== src/Replay/Flush.antt =====
-- `replay_batch_to_sinks` of src/wal/replay.rs: what a batch of entries sends, whether it waits, and
-- how the checkpoint follows.
pub mod Delivered
pub mod Collect
use ingest4x.Prelude.{
  ℕ, zero, suc, ◌+◌, ◌-◌, Bool, true, false, ◌&&◌, ◌||◌, not, Option, none, some, List, [], ◌∷◌,
  ◌++◌, leb, ltb, ◌==◌, max, length, is_empty, get_or, or_some, if◌then◌else◌,
}
use ingest4x.Bytes.{Bytes}
use ingest4x.Text.{Text, codes, text_eq}
use ingest4x.Result.{Result, ok, err, map_err}
use ingest4x.Wal.Record.{WalPosition, WalEntry}
use ingest4x.Wal.Issue.{ReplayIssue, runtime, sink_batch_config_invalid, sink_send_failed}
use ingest4x.Replay.Env.{ReplayEnv, EventSinkBatchConfig, sat_add}
use ingest4x.Replay.Send.{
  SinkDeliveryEvent, SinkBatchPolicy, Sinks, SendError, refused, panicked,
  send_sink_events_in_batches,
}
use ingest4x.Replay.State.{
  ReplayState, Exec, continue, ◌>>=◌, ◌>>◌, pure, lift, CheckpointFlushPolicy,
  checkpoint_covers_entry, mark_checkpoint_pending, should_flush_checkpoint,
  flush_pending_checkpoint, cleanup_covered_segments,
}
use ingest4x.Replay.Group.{get_list, extend, keys}

pub record ReplayEntryDeliveries (V : Type 0) : Type 0 where
  pub entry : WalEntry
  pub deliveries_by_sink : List (Text × List V)

pub data FlushMode : Type 0 where
  allow_defer force : FlushMode

abbrev text_leb : Text → Text → Bool
text_leb [] u = true
text_leb (b ∷ t) [] = false
text_leb (b ∷ t) (c ∷ u) = let rest = text_leb t u in ltb b c || (b == c && rest)

insert_name : Text → List Text → List Text
insert_name t [] = t ∷ []
insert_name t (u ∷ us) =
    let rest = insert_name t us in if text_leb t u then t ∷ u ∷ us else u ∷ rest

-- `sink_names.sort()`
pub sort_names : List Text → List Text
sort_names [] = []
sort_names (t ∷ ts) = insert_name t (sort_names ts)

since : Text → List (Text × ℕ) → Option ℕ
since name [] = none
since name ((k, t) ∷ m) = if text_eq k name then some t else since name m

remove_since : Text → List (Text × ℕ) → List (Text × ℕ)
remove_since name [] = []
remove_since name ((k, t) ∷ m) =
    let rest = remove_since name m in if text_eq k name then rest else (k, t) ∷ rest

pub remove_all : List Text → List (Text × ℕ) → List (Text × ℕ)
remove_all [] m = m
remove_all (k ∷ ks) m = remove_all ks (remove_since k m)

module _ (env : ReplayEnv) where
  open env use {Value}

  pub json_event_bytes : Value → ℕ
  json_event_bytes v = elim (env.to_vec v) [ ok bs ↦ length bs | err e ↦ 0 ]

  pub sink_batch_policy : Option EventSinkBatchConfig → Result ReplayIssue SinkBatchPolicy
  sink_batch_policy o =
      let timeout : Option Text = elim o [ none ↦ none | some c ↦ c.timeout ] in
      let events : Option ℕ = elim o [ none ↦ none | some c ↦ c.max_events ] in
      let bytes : Option ℕ = elim o [ none ↦ none | some c ↦ c.max_bytes ] in
      elim (env.parse_duration (get_or timeout env.replay.batch_timeout)) [
        | err e ↦ err (sink_batch_config_invalid e)
        | ok d ↦ ok (record {
          max_events = max (get_or events env.replay.batch_max_events) 1;
          max_bytes = max (get_or bytes env.replay.batch_max_bytes) 1;
          timeout = d;
        })
      ]

  abbrev pub EventMap : Type 0
  EventMap = List (Text × List (SinkDeliveryEvent Value))

  pub deliveries_of : WalEntry → List Value → List (SinkDeliveryEvent Value)
  deliveries_of e [] = []
  deliveries_of e (v ∷ vs) =
      record {
        node_id = e.entry_record.node_id;
        lsn = e.position.lsn;
        event = v;
        bytes = json_event_bytes v;
      }
      ∷ deliveries_of e vs

  pub add_entry : WalEntry → List (Text × List Value) → EventMap → EventMap
  add_entry e [] m = m
  add_entry e ((name, vs) ∷ ds) m =
      add_entry e ds (if is_empty vs then m else extend name (deliveries_of e vs) m)

  -- The first loop: what the batch sends to each sink.
  pub collect : Option WalPosition → List (ReplayEntryDeliveries Value) → EventMap → EventMap
  collect checkpoint [] m = m
  collect checkpoint (i ∷ is) m = collect checkpoint is (
      if checkpoint_covers_entry checkpoint i.entry
      then m
      else add_entry i.entry i.deliveries_by_sink m)

  sink_delivery_events_bytes : ℕ → List (SinkDeliveryEvent Value) → ℕ
  sink_delivery_events_bytes n [] = n
  sink_delivery_events_bytes n (d ∷ ds) = sink_delivery_events_bytes (sat_add n d.bytes) ds

  -- Whether a sink's events fill a batch, or wait for nothing.
  abbrev is_due : SinkBatchPolicy → List (SinkDeliveryEvent Value) → Bool
  is_due p events =
      p.timeout == 0
      || leb p.max_events (length events)
      || leb p.max_bytes (sink_delivery_events_bytes 0 events)

  -- `true` where every sink waits; the map keeps what was inserted before an early return.
  pub defer_loop :
      ℕ → EventMap → List Text → List (Text × ℕ) → Result ReplayIssue Bool × List (Text × ℕ)
  defer_loop now m [] pending = (ok true, pending)
  defer_loop now m (name ∷ names) pending = elim (sink_batch_policy (env.batch_config name)) [
    | err e ↦ (err e, pending)
    | ok p ↦
        let start = get_or (since name pending) now in
        let pending' : List (Text × ℕ) = elim (since name pending) [
          | none ↦ pending ++ ((name, now) ∷ [])
          | some t ↦ pending
        ] in
        let rest = defer_loop now m names pending' in
        if is_due p (get_list name m)
        then (ok false, pending)
        else if leb p.timeout (now - start)
        then (ok false, pending')
        else rest
  ]

  abbrev pub deferred_in : Option (List (Text × ℕ)) → EventMap → Exec Value Bool
  deferred_in none m s = (ok false, s)
  deferred_in (some pending) m s =
      let r = defer_loop (env.instant s.calls) m (sort_names (keys m)) pending in
      (r.0, record s { pending_since_by_sink = some (r.1); calls = s.calls + 1 })

  -- `sinks_deferred_by_batch_timeout`, and whether its answer is not empty
  unfoldable pub deferred : FlushMode → EventMap → Exec Value Bool
  deferred force m s = (ok false, s)
  deferred allow_defer m s =
      if is_empty m then (ok false, s) else deferred_in s.pending_since_by_sink m s

  -- `panicked` does not occur: `Send.Loop`.
  abbrev pub send_issue : Text → SendError → ReplayIssue
  send_issue name (refused lsn chain) = sink_send_failed name lsn chain
  send_issue name panicked = runtime (codes "panicked") []

  abbrev pub sent_with :
      Text
      → List (SinkDeliveryEvent Value)
      → Result ReplayIssue SinkBatchPolicy
      → Sinks Value
      → Result ReplayIssue (Unit {0}) × Sinks Value
  sent_with name events (err e) w = (err e, w)
  sent_with name events (ok p) w =
      let r = send_sink_events_in_batches env name events p w in
      (map_err (send_issue name) (r.0), r.1)

  -- One sink after the other, until one refuses.
  pub send_all : EventMap → List Text → Sinks Value → Result ReplayIssue (Unit {0}) × Sinks Value
  send_all m [] w = (ok tt, w)
  send_all m (name ∷ names) w =
      let r = sent_with name (get_list name m) (sink_batch_policy (env.batch_config name)) w in
      elim (r.0) [ err e ↦ (err e, r.1) | ok x ↦ send_all m names (r.1) ]

  unfoldable pub send_map : EventMap → Exec Value (Unit {0})
  send_map m s = let r = send_all m (sort_names (keys m)) s.sinks in (r.0, record s { sinks = r.1 })

  abbrev pub without : List Text → Option (List (Text × ℕ)) → Option (List (Text × ℕ))
  without ks none = none
  without ks (some m) = some (remove_all ks m)

  unfoldable pub mark_batch :
      List (ReplayEntryDeliveries Value) → ReplayState Value → ReplayState Value
  mark_batch [] s = s
  mark_batch (i ∷ is) s = mark_batch is (
      if checkpoint_covers_entry s.checkpoint i.entry then s else mark_checkpoint_pending s i.entry)

  -- What follows the sends.
  unfoldable pub settle :
      CheckpointFlushPolicy → List Text → List (ReplayEntryDeliveries Value) → Exec Value Bool
  settle policy names batch s =
      let s' =
        mark_batch batch
          (record s { pending_since_by_sink = without names s.pending_since_by_sink }) in
      if should_flush_checkpoint policy s'.pending_records s'.pending_bytes s'.last_checkpoint_flush
        (env.instant s'.calls)
      then ((flush_pending_checkpoint env >> (cleanup_covered_segments env >> pure true))
          (record s' { calls = s'.calls + 1 }))
      else (ok true, record s' { calls = s'.calls + 1 })

  abbrev pub unless_deferred :
      CheckpointFlushPolicy → EventMap → List (ReplayEntryDeliveries Value) → Bool → Exec Value Bool
  unless_deferred policy m batch true = pure false
  unless_deferred policy m batch false = send_map m >> settle policy (keys m) batch

  unfoldable pub flush_items :
      CheckpointFlushPolicy
      → EventMap
      → List (ReplayEntryDeliveries Value)
      → FlushMode
      → Exec Value Bool
  flush_items policy m batch mode = deferred mode m >>= unless_deferred policy m batch

  -- The answer tells whether the batch was sent.
  unfoldable pub replay_batch_to_sinks :
      CheckpointFlushPolicy → List (ReplayEntryDeliveries Value) → FlushMode → Exec Value Bool
  replay_batch_to_sinks policy [] mode s = (ok true, s)
  replay_batch_to_sinks policy (i ∷ is) mode s =
      flush_items policy (collect s.checkpoint (i ∷ is) []) (i ∷ is) mode s
