-- ===== src/Tests/Delivery.antt =====
-- The theorems on the checkpoint, on issues and on the replay, at concrete inputs.
use ingest4x.Prelude.{ℕ, ◌+◌, ◌≡◌, refl, none, some, List, [], ◌∷◌, arith, if◌then◌else◌}
use ingest4x.Bytes.{Bytes}
use ingest4x.Text.{codes, contains, trim}
use ingest4x.Result.{ok, data_error}
use ingest4x.Wal.Record.{WalPosition, WalEntry, WalBounds}
use ingest4x.Wal.Issue.{issue_code, wal_read_failed}
use ingest4x.Wal.Issue.Laws.{wal_read_failed_by_path}
use ingest4x.Wal.Checkpoint.{
  CheckpointFiles, latest, checkpoint_before_wal_floor, read_node_id, compute_checksum,
  new_checkpoint, write_checkpoint, reset_checkpoint, read_checkpoint,
}
use ingest4x.Wal.Checkpoint.RoundTrip.{read-write_checkpoint}
use ingest4x.Replay.Send.{SinkDeliveryEvent, SinkBatchPolicy, Sinks, send_sink_events_in_batches}
use ingest4x.Replay.Send.Batches.{Outcome}
use ingest4x.Replay.Send.Loop.{send_sink_events_in_batches-Outcome}
use ingest4x.Replay.State.{ReplayState, CheckpointFlushPolicy}
use ingest4x.Replay.Flush.{ReplayEntryDeliveries}
use ingest4x.Replay.Once.{replay_entries}
use ingest4x.Replay.Safety.Pass.{Passed, replay_entries-Passed}
use ingest4x.Tests.World.{small_record, small_format, small_format-IsFormat, small_env}

abbrev at : ℕ → WalPosition
at n = record { lsn = n; segment = 1; offset = 512 + n }

abbrev fresh_files : CheckpointFiles
fresh_files = record { checkpoint_file = none; node_id_file = some (codes "n ") }

abbrev new_file : Bytes
new_file = 1 ∷ 4 ∷ 1 ∷ 516 ∷ 77 ∷ 3 ∷ codes "n"

abbrev checkpoint_files : CheckpointFiles
checkpoint_files = record fresh_files { checkpoint_file = some new_file }

checkpoint_written :
    write_checkpoint small_format (at 4) 77 none fresh_files ≡ (ok tt, checkpoint_files)
unfolding write_checkpoint read_node_id new_checkpoint compute_checksum trim
checkpoint_written = refl

abbrev bounds : WalBounds
bounds = record { floor = some (at 0); tail = some (at 4) }

read-write_checkpoint_example :
    read_checkpoint small_format (codes "c") latest bounds 80 none checkpoint_files ≡ (
      if checkpoint_before_wal_floor (at 4) bounds
      then reset_checkpoint small_format latest bounds 80 none checkpoint_files
      else (ok (some (at 4)), checkpoint_files))
read-write_checkpoint_example =
    read-write_checkpoint small_format fresh_files checkpoint_files (at 4) 77 80 none none
      (codes "c") latest bounds small_format-IsFormat checkpoint_written

wal_read_failed_by_path_example :
    issue_code
      (wal_read_failed (data_error "invalid wal record magic: " (codes "/tmp/crc mismatch/1.wal")))
    ≡ codes "replay_wal_crc_mismatch"
unfolding contains
wal_read_failed_by_path_example =
    wal_read_failed_by_path "invalid wal record magic: " (codes "/tmp/crc mismatch/1.wal") refl

abbrev delivery : ℕ → SinkDeliveryEvent Bytes
delivery n = record { node_id = codes "n"; lsn = n; event = n ∷ []; bytes = 1 }

abbrev three_deliveries : List (SinkDeliveryEvent Bytes)
three_deliveries = delivery 1 ∷ delivery 2 ∷ delivery 3 ∷ []

abbrev pairs : SinkBatchPolicy
pairs = record { max_events = 2; max_bytes = 100; timeout = 0 }

abbrev no_sends : Sinks Bytes
no_sends = record { sent = []; calls = 0 }

send_sink_events_in_batches-Outcome_example :
    Outcome
      (codes "s")
      pairs
      three_deliveries
      no_sends
      (send_sink_events_in_batches small_env (codes "s") three_deliveries pairs no_sends)
send_sink_events_in_batches-Outcome_example =
    send_sink_events_in_batches-Outcome small_env (codes "s") pairs three_deliveries no_sends
      (omega arith)

abbrev entry : ℕ → WalEntry
entry n = record {
  position = at n;
  next_position = record { lsn = n; segment = 1; offset = 513 + n };
  entry_record = small_record n 110 (n ∷ []);
}

abbrev two_entries : List (ReplayEntryDeliveries Bytes)
two_entries =
    record { entry = entry 1; deliveries_by_sink = (codes "s", ((1 ∷ []) ∷ [])) ∷ [] }
    ∷ record { entry = entry 2; deliveries_by_sink = (codes "s", ((2 ∷ []) ∷ [])) ∷ [] }
    ∷ []

abbrev start : ReplayState Bytes
start = record {
  checkpoint = none;
  pending_checkpoint = none;
  pending_records = 0;
  pending_bytes = 0;
  last_checkpoint_flush = 0;
  pending_since_by_sink = some [];
  sinks = no_sends;
  files = fresh_files;
  segments = [];
  quarantined = [];
  calls = 0;
}

abbrev every_record : CheckpointFlushPolicy
every_record = record { flush_interval = 1000000; flush_records = 1; flush_bytes = 1 }

replay_entries-Passed_example :
    (let r = replay_entries small_env every_record (entry 1 ∷ entry 2 ∷ []) none start in
      Passed small_env none (entry 1 ∷ entry 2 ∷ []) r.0 r.1)
replay_entries-Passed_example =
    replay_entries-Passed small_env none every_record (entry 1 ∷ entry 2 ∷ []) start refl refl tt
      ((refl, omega arith), ((refl, omega arith), tt))
