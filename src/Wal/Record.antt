-- ===== src/Wal/Record.antt =====
-- The records of src/wal/mod.rs, and the interface of the code that it calls from other packages.
use ingest4x.Prelude.{ℕ, ◌<◌, ◌≡◌, ◌^◌, Option, List, true}
use ingest4x.Prelude.Int.{ℤ}
use ingest4x.Bytes.{Bytes}
use ingest4x.Text.{Text, is_utf8}
use ingest4x.Result.{Result, ok}

pub record WalHttpEnvelope : Type 0 where
  pub method : Text
  pub path : Text
  pub query : Option Text
  pub remote_addr : Option Text
  pub headers : List (Text × Text)

-- `Http` is the only constructor of `WalSourceEnvelope`.
pub data WalSourceEnvelope : Type 0 where
  http_source : WalHttpEnvelope → WalSourceEnvelope

pub record WalEnvelope : Type 0 where
  pub project_id : ℤ
  pub received_at_ms : ℕ
  pub source : WalSourceEnvelope

pub record WalRecord : Type 0 where
  pub record_id : Text
  pub lsn : ℕ
  pub node_id : Text
  pub envelope : WalEnvelope
  pub payload : Bytes

pub project_id : WalRecord → ℤ
project_id r = r.envelope.project_id

abbrev pub received_at_ms : WalRecord → ℕ
received_at_ms r = r.envelope.received_at_ms

http_of : WalSourceEnvelope → WalHttpEnvelope
http_of (http_source h) = h

unfoldable pub http : WalRecord → WalHttpEnvelope
unfolding http_of
http r = http_of r.envelope.source

pub record WalPosition : Type 0 where
  pub lsn : ℕ
  pub segment : ℕ
  pub offset : ℕ

pub record WalEntry : Type 0 where
  pub position : WalPosition
  pub next_position : WalPosition
  pub entry_record : WalRecord

pub record WalBounds : Type 0 where
  pub floor : Option WalPosition
  pub tail : Option WalPosition

-- `bitcode::serialize`, `bitcode::deserialize` and `crc32fast::hash`, and the text of the error that
-- `String::from_utf8` gives for bytes. An error is its text.
pub record Codec : Type 0 where
  pub serialize : WalRecord → Result Text Bytes
  pub deserialize : Bytes → Result Text WalRecord
  pub crc : Bytes → ℕ
  pub utf8_error : Bytes → Text

-- What their documentation promises: what was serialized is read back, and a CRC has 32 bits.
pub record IsCodec (c : Codec) : Type 0 where
  pub round_trip : (r : WalRecord) (bs : Bytes) → c.serialize r ≡ ok bs → c.deserialize bs ≡ ok r
  pub crc_bound : (bs : Bytes) → c.crc bs < 2 ^ 32

-- What Rust's types promise of a record: the words fit, and a string is UTF-8.
pub record IsTyped (r : WalRecord) : Type 0 where
  pub lsn_fits : r.lsn < 2 ^ 64
  pub time_fits : received_at_ms r < 2 ^ 64
  pub node_id_utf8 : is_utf8 r.node_id ≡ true

-- `assign_wal_metadata`
unfoldable pub assign_wal_metadata : WalRecord → ℕ → Text → WalRecord
assign_wal_metadata r lsn node_id = record r { lsn = lsn; node_id = node_id }
