-- ===== src/Replay/Once.antt =====
-- `replay_once_inner` of src/wal/replay.rs: one pass over the log behind the checkpoint.
use ingest4x.Prelude.{
  ℕ, ◌+◌, ◌-◌, Bool, true, false, ◌||◌, Option, none, some, List, [], ◌∷◌, ◌++◌, leb, ◌==◌, max,
  length, is_empty, get_or, if◌then◌else◌,
}
use ingest4x.Prelude.Int.{wrap_add}
use ingest4x.Text.{Text, codes}
use ingest4x.Result.{Result, ok, err, map_err, IoError}
use ingest4x.Wal.Record.{WalPosition, WalEntry, WalBounds}
use ingest4x.Wal.Issue.{
  ReplayIssue, ReplayAction, quarantine_record, action, wal_lsn_gap, checkpoint_corrupt,
  wal_read_failed,
}
use ingest4x.Wal.Log.{read_entries_after_limit, read_wal_bounds}
use ingest4x.Wal.Checkpoint.{AutoOffsetReset, earliest, latest, CheckpointFiles, read_checkpoint}
use ingest4x.Replay.Env.{ReplayEnv, ReplaySettings, sat_add}
use ingest4x.Replay.State.{
  Exec, ◌>>=◌, ◌>>◌, pure, lift, CheckpointFlushPolicy, mark_checkpoint_pending,
  checkpoint_flush_policy, flush_pending_checkpoint, cleanup_covered_segments,
}
use ingest4x.Replay.Group.{process_record, group_deliveries_by_sink}
use ingest4x.Replay.Flush.{ReplayEntryDeliveries, allow_defer, force, replay_batch_to_sinks}

abbrev pub replay_batch_size : ℕ
replay_batch_size = 1024

-- The local variables of the loop.
pub record Locals (V : Type 0) : Type 0 where
  pub expected_lsn : Option ℕ
  pub replay_batch : List (ReplayEntryDeliveries V)
  pub replayed : ℕ

pub replay_batch_bytes : {V : Type 0} → ℕ → List (ReplayEntryDeliveries V) → ℕ
replay_batch_bytes n [] = n
replay_batch_bytes n (i ∷ is) =
    replay_batch_bytes (sat_add n (i.entry.next_position.offset - i.entry.position.offset)) is

-- with `replay_window_policy`
pub replay_batch_reaches_window_policy :
    {V : Type 0} → List (ReplayEntryDeliveries V) → ReplaySettings → Bool
replay_batch_reaches_window_policy batch r =
    leb (max r.max_records 1) (length batch) || leb (max r.max_bytes 1) (replay_batch_bytes 0 batch)

pub is_quarantine : ReplayAction → Bool
is_quarantine quarantine_record = true
is_quarantine _ = false

module _ (env : ReplayEnv) where
  open env use {Value}

  unfoldable pub quarantine_replay_issue : WalEntry → ReplayIssue → Exec Value (Unit {0})
  quarantine_replay_issue e issue s = (
    ok tt,
    mark_checkpoint_pending (record s { quarantined = s.quarantined ++ ((e, issue) ∷ []) }) e,
  )

  module _ (policy : CheckpointFlushPolicy) where
    unfoldable pub flush_batch : Locals Value → Exec Value Bool
    flush_batch l = replay_batch_to_sinks env policy l.replay_batch force

    -- The batch so far is sent, and the record is put aside.
    unfoldable pub put_aside : WalEntry → ReplayIssue → Locals Value → Exec Value (Locals Value)
    put_aside e issue l = flush_batch l >>= λ _.
        quarantine_replay_issue e issue
        >> pure (record {
          expected_lsn = some (wrap_add e.position.lsn 1);
          replay_batch = [];
          replayed = wrap_add l.replayed 1;
        })

    -- The batch so far is sent, and the replay stops.
    unfoldable pub stop_with : ReplayIssue → Locals Value → Exec Value (Locals Value)
    stop_with issue l = flush_batch l >>= λ _. lift (err issue)

    abbrev pub pushed : WalEntry → List (Text × List Value) → Locals Value → Locals Value
    pushed e m l = record {
      expected_lsn = some (wrap_add e.position.lsn 1);
      replay_batch = l.replay_batch ++ (record { entry = e; deliveries_by_sink = m } ∷ []);
      replayed = wrap_add l.replayed 1;
    }

    unfoldable pub push_entry :
        WalEntry → List (Text × List Value) → Locals Value → Exec Value (Locals Value)
    push_entry e m l =
        let l' = pushed e m l in
        if replay_batch_reaches_window_policy l'.replay_batch env.replay
        then (flush_batch l' >>= λ _. pure (record l' { replay_batch = [] }))
        else pure l'

    abbrev pub grouped :
        WalEntry
        → Result ReplayIssue (List (Text × List Value))
        → Locals Value
        → Exec Value (Locals Value)
    grouped e (ok m) l = push_entry e m l
    grouped e (err issue) l =
        if is_quarantine (action issue) then put_aside e issue l else lift (err issue)

    abbrev pub processed :
        WalEntry
        → Result ReplayIssue (List (Text × Value))
        → Locals Value
        → Exec Value (Locals Value)
    processed e (ok ds) l = grouped e (group_deliveries_by_sink env ds) l
    processed e (err issue) l =
        if is_quarantine (action issue) then put_aside e issue l else stop_with issue l

    unfoldable pub replay_entry : WalEntry → Locals Value → Exec Value (Locals Value)
    replay_entry e l =
        let expected = get_or l.expected_lsn e.position.lsn in
        if e.position.lsn == expected
        then processed e (process_record env e.entry_record) l
        else stop_with (wal_lsn_gap expected e.position.lsn) l

    unfoldable pub replay_loop : List WalEntry → Locals Value → Exec Value (Locals Value)
    replay_loop [] l = pure l
    replay_loop (e ∷ es) l = replay_entry e l >>= replay_loop es

    abbrev pub finish : ℕ → Bool → Exec Value ℕ
    finish replayed false = pure 0
    finish replayed true =
        flush_pending_checkpoint env >> (cleanup_covered_segments env >> pure replayed)

    unfoldable pub replay_entries : List WalEntry → Option ℕ → Exec Value ℕ
    replay_entries entries expected =
        replay_loop entries (record { expected_lsn = expected; replay_batch = []; replayed = 0 })
        >>= λ l. replay_batch_to_sinks env policy l.replay_batch allow_defer >>= finish l.replayed

  reset_of_sinks : List Text → AutoOffsetReset
  reset_of_sinks [] = latest
  reset_of_sinks (t ∷ ts) =
      let rest = reset_of_sinks ts in
      elim (env.auto_offset_reset t) [ some earliest ↦ earliest | _ ↦ rest ]

  pub pipeline_auto_offset_reset : AutoOffsetReset
  pipeline_auto_offset_reset = reset_of_sinks env.sink_names

  abbrev started :
      Result IoError (Option WalPosition) × CheckpointFiles → Exec Value (Option WalPosition)
  started (err e, files) s =
      (err (checkpoint_corrupt e), record s { files = files; calls = s.calls + 1 })
  started (ok p, files) s = (
    ok p,
    record s {
      checkpoint = p;
      pending_checkpoint = none;
      pending_records = 0;
      pending_bytes = 0;
      last_checkpoint_flush = env.instant (s.calls + 1);
      files = files;
      calls = s.calls + 2;
    },
  )

  abbrev start_from : Result IoError WalBounds → Exec Value (Option WalPosition)
  start_from (err e) s = (err (checkpoint_corrupt e), s)
  start_from (ok b) s =
      started
        (read_checkpoint env.format (env.dir ++ codes "/checkpoint.json") pipeline_auto_offset_reset
          b (env.instant s.calls) (env.write_fault s.calls) s.files)
        s

  pub read_replay_checkpoint_state : Exec Value (Option WalPosition)
  read_replay_checkpoint_state s = start_from (read_wal_bounds env.codec env.dir s.segments) s

  -- `replay_start.map(|position| position.lsn + 1)`
  abbrev pub next_lsn : Option WalPosition → Option ℕ
  next_lsn none = none
  next_lsn (some p) = some (wrap_add p.lsn 1)

  pub read_batch : Option WalPosition → Exec Value (List WalEntry)
  read_batch start s = (
    map_err wal_read_failed
        (read_entries_after_limit env.codec env.dir s.segments start (some replay_batch_size)),
    s,
  )

  pub replay_once : Exec Value ℕ
  replay_once = lift (checkpoint_flush_policy env env.checkpoint) >>= λ policy.
      if is_empty env.sink_names
      then pure 0
      else (read_replay_checkpoint_state >>= λ start.
          read_batch start >>= λ entries. replay_entries policy entries (next_lsn start))
