-- ===== src/Wal/Writer/State.antt =====
-- The state of `WalWriterInner` in src/wal/mod.rs with the files that it writes, and actions on it.
-- The lock of the state makes an action one step. Each call of the operating system has a number and
-- an arbitrary answer; a failed `write_all` may have written a part.
use ingest4x.Prelude.{ℕ, ◌+◌, Bool, Option, none, some, List}
use ingest4x.Text.{Text}
use ingest4x.Result.{Result, ok, err, IoError}
use ingest4x.Wal.Record.{WalRecord, WalPosition, Codec}
use ingest4x.Wal.Log.{Segments}

-- The fields of `WalWriterInner` that do not change, and the outside world.
pub record WriterEnv : Type 0 where
  pub codec : Codec
  pub dir : Text
  pub node_id : Text
  pub segment_max_bytes : ℕ
  pub flush_records : ℕ
  pub no_sync : Bool
  pub min_free_bytes : ℕ
  -- call number n: an error; how much of a failed write is on the disk; the free bytes; the clock
  pub io_error : ℕ → Option IoError
  pub written_part : ℕ → ℕ
  pub available_space : ℕ → Result IoError ℕ
  pub now_ms : ℕ → ℕ

-- `response` is the number of the channel that a caller waits on.
pub record BufferedWalRecord : Type 0 where
  pub buffered_record : WalRecord
  pub response : Option ℕ

pub record WriterState : Type 0 where
  pub segment_id : ℕ
  pub offset : ℕ
  pub next_lsn : ℕ
  pub buffered : List BufferedWalRecord
  pub segments : Segments
  -- what was sent to the waiting callers, in order; channels so far; calls so far
  pub responses : List (ℕ × Result IoError WalPosition)
  pub channels : ℕ
  pub calls : ℕ

-- An action; what was done before an error stays done.
abbrev pub Exec : Type 0 → Type 0
Exec A = WriterState → Result IoError A × WriterState

abbrev pub continue : {A B : Type 0} → Result IoError A → (A → Exec B) → Exec B
continue (ok a) f w = f a w
continue (err e) f w = (err e, w)

infixl 10 ◌>>=◌ ◌>>◌
abbrev pub ◌>>=◌ : {A B : Type 0} → Exec A → (A → Exec B) → Exec B
◌>>=◌ m f w = continue (m w).0 f (m w).1

abbrev pub ◌>>◌ : {B : Type 0} → Exec (Unit {0}) → Exec B → Exec B
m >> k = m >>= λ _. k

abbrev pub pure : {A : Type 0} → A → Exec A
pure a w = (ok a, w)

abbrev pub lift : {A : Type 0} → Result IoError A → Exec A
lift r w = (r, w)

abbrev pub modify : (WriterState → WriterState) → Exec (Unit {0})
modify f w = (ok tt, f w)

abbrev pub answered : Option IoError → Result IoError (Unit {0})
answered none = ok tt
answered (some e) = err e

-- One call of the operating system that changes no segment file.
unfoldable pub io : WriterEnv → Exec (Unit {0})
io env w = (answered (env.io_error w.calls), record w { calls = w.calls + 1 })
