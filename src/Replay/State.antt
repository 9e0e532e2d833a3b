-- ===== src/Replay/State.antt =====
-- The state of a replay (src/wal/replay.rs): `ReplayCheckpointState`, `WalReplayRuntimeState`, the
-- files and the sinks, and the steps that move the checkpoint.
use ingest4x.Prelude.{ℕ, ◌+◌, ◌-◌, Bool, false, ◌||◌, Option, none, some, List, leb, max}
use ingest4x.Prelude.Int.{wrap_add}
use ingest4x.Text.{Text}
use ingest4x.Result.{Result, ok, err, map_err, IoError}
use ingest4x.Wal.Record.{WalPosition, WalEntry}
use ingest4x.Wal.Issue.{ReplayIssue, checkpoint_config_invalid, checkpoint_write_failed}
use ingest4x.Wal.Log.{Segments, remove_segments_covered_by_checkpoint}
use ingest4x.Wal.Checkpoint.{CheckpointFiles, write_checkpoint}
use ingest4x.Replay.Env.{ReplayEnv, CheckpointSettings}
use ingest4x.Replay.Send.{Sinks}

pub record ReplayState (V : Type 0) : Type 0 where
  pub checkpoint : Option WalPosition
  pub pending_checkpoint : Option WalPosition
  pub pending_records : ℕ
  pub pending_bytes : ℕ
  pub last_checkpoint_flush : ℕ
  -- `none` where no runtime state is passed
  pub pending_since_by_sink : Option (List (Text × ℕ))
  pub sinks : Sinks V
  pub files : CheckpointFiles
  pub segments : Segments
  -- what was written to the quarantine log
  pub quarantined : List (WalEntry × ReplayIssue)
  -- calls of the outside world so far, but for those of the sinks
  pub calls : ℕ

pub record CheckpointFlushPolicy : Type 0 where
  pub flush_interval : ℕ
  pub flush_records : ℕ
  pub flush_bytes : ℕ

-- An action on the state; what was done before an error stays done.
abbrev pub Exec : Type 0 → Type 0 → Type 0
Exec V A = ReplayState V → Result ReplayIssue A × ReplayState V

abbrev pub continue : {V A B : Type 0} → Result ReplayIssue A → (A → Exec V B) → Exec V B
continue (ok a) f s = f a s
continue (err e) f s = (err e, s)

infixl 10 ◌>>=◌ ◌>>◌
abbrev pub ◌>>=◌ : {V A B : Type 0} → Exec V A → (A → Exec V B) → Exec V B
◌>>=◌ m f s = continue (m s).0 f (m s).1

abbrev pub ◌>>◌ : {V B : Type 0} → Exec V (Unit {0}) → Exec V B → Exec V B
m >> k = m >>= λ _. k

abbrev pub pure : {V A : Type 0} → A → Exec V A
pure a s = (ok a, s)

abbrev pub lift : {V A : Type 0} → Result ReplayIssue A → Exec V A
lift r s = (r, s)

unfoldable pub covers : Option WalPosition → ℕ → Bool
covers none lsn = false
covers (some p) lsn = leb lsn p.lsn

unfoldable pub checkpoint_covers_entry : Option WalPosition → WalEntry → Bool
unfolding covers
checkpoint_covers_entry c e = covers c e.position.lsn

unfoldable pub mark_checkpoint_pending : {V : Type 0} → ReplayState V → WalEntry → ReplayState V
mark_checkpoint_pending s e = record s {
  pending_checkpoint = some e.next_position;
  pending_records = wrap_add s.pending_records 1;
  pending_bytes = wrap_add s.pending_bytes (e.next_position.offset - e.position.offset);
}

pub should_flush_checkpoint : CheckpointFlushPolicy → ℕ → ℕ → ℕ → ℕ → Bool
should_flush_checkpoint p records bytes last now =
    leb p.flush_records records || leb p.flush_bytes bytes || leb p.flush_interval (now - last)

module _ (env : ReplayEnv) where
  open env use {Value}

  pub checkpoint_flush_policy : CheckpointSettings → Result ReplayIssue CheckpointFlushPolicy
  checkpoint_flush_policy c = elim (env.parse_duration c.flush_interval) [
    | err e ↦ err (checkpoint_config_invalid e)
    | ok d ↦ ok (record {
      flush_interval = max d 1000000;
      flush_records = max c.flush_records 1;
      flush_bytes = max c.flush_bytes 1;
    })
  ]

  abbrev pub flushed :
      WalPosition → Result IoError (Unit {0}) × CheckpointFiles → Exec Value (Unit {0})
  flushed p (err e, files) s =
      (err (checkpoint_write_failed e), record s { files = files; calls = s.calls + 1 })
  flushed p (ok x, files) s = (
    ok tt,
    record s {
      checkpoint = some p;
      pending_checkpoint = none;
      pending_records = 0;
      pending_bytes = 0;
      last_checkpoint_flush = env.instant (s.calls + 1);
      files = files;
      calls = s.calls + 2;
    },
  )

  abbrev pub flush_at : Option WalPosition → Exec Value (Unit {0})
  flush_at none s = (ok tt, s)
  flush_at (some p) s =
      flushed p
        (write_checkpoint env.format p (env.instant s.calls) (env.write_fault s.calls) s.files) s

  unfoldable pub flush_pending_checkpoint : Exec Value (Unit {0})
  flush_pending_checkpoint s = flush_at s.pending_checkpoint s

  abbrev pub cleaned : Result IoError (Unit {0}) × Segments × ℕ → Exec Value (Unit {0})
  cleaned (r, segments, n) s =
      (map_err checkpoint_write_failed r, record s { segments = segments; calls = n })

  abbrev pub cleanup_at : Option WalPosition → Exec Value (Unit {0})
  cleanup_at none s = (ok tt, s)
  cleanup_at (some p) s =
      cleaned
        (remove_segments_covered_by_checkpoint env.codec env.dir env.io_error p.lsn p.segment
          s.calls s.segments)
        s

  unfoldable pub cleanup_covered_segments : Exec Value (Unit {0})
  cleanup_covered_segments s = cleanup_at s.checkpoint s
