-- ===== src/Wal/Frame.antt =====
-- The record frame of src/wal/mod.rs: `serialize_frame` and `read_record_frame`, as a release build
-- runs them (the failure that tests inject is compiled out). `from_utf8` accepts or refuses, and the
-- text of its error is left out of the message.
pub mod Header
pub mod Reads
pub mod RoundTrip
pub mod Torn
pub mod Progress
use ingest4x.Prelude.{
  ℕ, ◌+◌, ◌^◌, ◌<◌, String, Bool, true, false, ◌&&◌, Option, none, some, List, [], ◌∷◌, ◌++◌,
  length, ltb, leb, ◌==◌, if◌then◌else◌, not,
}
use ingest4x.Bytes.{Bytes, be_bytes, from_be, read_exact, bytes_eq, slice}
use ingest4x.Text.{Text, codes, from_utf8, text_eq}
use ingest4x.Result.{
  Result, ok, err, ◌>>=◌, ◌>>◌, guard, map_err, ok_or, IoError, data_error, input_error,
  other_error,
}
use ingest4x.Wal.Record.{WalRecord, Codec, received_at_ms}
use ingest4x.Wal.Segment.{decimal}

abbrev pub record_magic : Bytes
record_magic = codes "i4x.rec" ++ (0 ∷ [])

abbrev pub record_header_fixed_len : ℕ
record_header_fixed_len = 42

-- The 34 bytes between the magic and the node id.
unfoldable pub fixed_header : ℕ → ℕ → ℕ → ℕ → ℕ → ℕ → Bytes
fixed_header header_len lsn received_at node_id_len payload_len crc =
    be_bytes 2 1
    ++ (be_bytes 2 header_len
        ++ (1
            ∷ 0
            ∷ 0
            ∷ 0
            ∷ (be_bytes 8 lsn
                ++ (be_bytes 8 received_at
                    ++ (be_bytes 2 node_id_len ++ (be_bytes 4 payload_len ++ be_bytes 4 crc))))))

unfoldable pub frame_bytes : Codec → WalRecord → Bytes → Bytes
frame_bytes c r payload =
    record_magic
    ++ (fixed_header (record_header_fixed_len + length r.node_id) r.lsn (received_at_ms r)
          (length r.node_id) (length payload) (c.crc payload)
        ++ (r.node_id ++ payload))

unfoldable pub serialize_frame : Codec → WalRecord → Result IoError Bytes
unfolding frame_bytes fixed_header
serialize_frame c r = do
  payload ← map_err other_error (c.serialize r)
  guard (ltb (length payload) (2 ^ 32))
      (input_error "wal record payload is larger than u32::MAX" [])
  guard (ltb (length r.node_id) (2 ^ 16))
      (input_error "wal record node_id is larger than u16::MAX" [])
  guard (ltb (record_header_fixed_len + length r.node_id) (2 ^ 16))
      (input_error "wal record header is larger than u16::MAX" [])
  ok (frame_bytes c r payload)

pub record FrameHeader : Type 0 where
  pub header_len : ℕ
  pub lsn : ℕ
  pub received_at : ℕ
  pub node_id_len : ℕ
  pub payload_len : ℕ
  pub crc : ℕ

-- The checks on the fixed header, in the order of the source.
pub parse_fixed_header : Text → Bytes → Result IoError FrameHeader
parse_fixed_header path h = do
  guard (from_be (slice 0 2 h) == 1) (
      data_error "unsupported wal record version "
        (decimal (from_be (slice 0 2 h)) ++ codes ": " ++ path))
  let header_len = from_be (slice 2 2 h)
  guard (leb record_header_fixed_len header_len)
      (data_error "invalid wal record header length: " path)
  guard (bytes_eq (slice 4 1 h) (1 ∷ [])) (
      data_error "unsupported wal record type "
        (decimal (from_be (slice 4 1 h)) ++ codes ": " ++ path))
  guard (bytes_eq (slice 5 1 h) (0 ∷ [])) (
      data_error "unsupported wal record flags "
        (decimal (from_be (slice 5 1 h)) ++ codes ": " ++ path))
  let node_id_len = from_be (slice 24 2 h)
  guard (header_len == (record_header_fixed_len + node_id_len))
      (data_error "wal record header length mismatch: " path)
  ok (record {
    header_len = header_len;
    lsn = from_be (slice 8 8 h);
    received_at = from_be (slice 16 8 h);
    node_id_len = node_id_len;
    payload_len = from_be (slice 26 4 h);
    crc = from_be (slice 30 4 h);
  })

-- `match reader.read_exact(..)`: an unexpected end answers `Ok(None)`.
pub try_read {ℓ} :
    {A : Type ℓ}
    → ℕ
    → Bytes
    → (Bytes → Bytes → Result IoError (Option A))
    → Result IoError (Option A)
try_read n src k = elim (read_exact n src) [ none ↦ ok none | some (bs, rest) ↦ k bs rest ]

-- What a read frame gives: the record, the next offset, and the bytes that follow.
abbrev pub Frame : Type 0
Frame = WalRecord × ℕ × Bytes

-- The end of the message on a payload that the codec cannot read; the version is 1 here.
incompatible : Text
incompatible =
    codes
      "; record_version=1; payload_codec=bitcode(WalRecord); this usually means the WAL was written with a different WalRecord schema and there is no payload schema version marker yet; use a compatible WAL migration or drain/remove old WAL only after confirming pending events are no longer needed"

pub check_payload :
    Codec → Text → ℕ → FrameHeader → Text → Bytes → Bytes → Result IoError (Option Frame)
check_payload c path start h node_id payload rest = do
  guard (c.crc payload == h.crc) (data_error "wal frame crc mismatch: " path)
  r ←
      map_err
        (λ e.
          data_error "wal record payload is not compatible with this ingest4x version: "
            (e ++ codes "; segment=" ++ path ++ incompatible))
        (c.deserialize payload)
  guard (r.lsn == h.lsn) (data_error "wal record lsn mismatch: " path)
  guard (received_at_ms r == h.received_at) (data_error "wal record timestamp mismatch: " path)
  guard (text_eq r.node_id node_id) (data_error "wal record node_id mismatch: " path)
  ok (some (r, start + h.header_len + h.payload_len, rest))

pub read_body : Codec → Text → ℕ → FrameHeader → Bytes → Result IoError (Option Frame)
unfolding try_read
read_body c path start h src = try_read h.node_id_len src λ node_id_bytes after_id. do
  node_id ←
      ok_or (from_utf8 node_id_bytes)
        (data_error "invalid wal record node_id: " (c.utf8_error node_id_bytes))
  try_read h.payload_len after_id λ payload rest. check_payload c path start h node_id payload rest

pub read_record_frame : Codec → Text → Bytes → ℕ → Result IoError (Option Frame)
unfolding try_read
read_record_frame c path src start = try_read 8 src λ magic after_magic. do
  guard (bytes_eq magic record_magic) (data_error "invalid wal record magic: " path)
  try_read 34 after_magic λ header after_header. do
    h ← parse_fixed_header path header
    read_body c path start h after_header
