-- ===== src/Wal/Segment.antt =====
-- The 512-byte segment header of src/wal/mod.rs, and the name of a segment file.
pub mod RoundTrip
use ingest4x.Prelude.{
  ℕ, zero, suc, ◌+◌, ◌-◌, ◌/◌, ◌%◌, Option, none, some, List, [], ◌∷◌, ◌++◌, length, take, drop,
  replicate, leb, ltb, ◌==◌, if◌then◌else◌,
}
use ingest4x.Bytes.{Bytes, be_bytes, from_be, read_exact, bytes_eq, slice}
use ingest4x.Text.{Text, codes, from_utf8}
use ingest4x.Result.{
  Result, ok, err, ◌>>=◌, ◌>>◌, guard, ok_or, IoError, data_error, input_error, eof_error,
}
use ingest4x.Wal.Record.{Codec}

abbrev pub segment_magic : Bytes
segment_magic = codes "i4x.seg" ++ (0 ∷ [])

abbrev pub segment_header_len : ℕ
segment_header_len = 512

abbrev pub segment_header_crc_offset : ℕ
segment_header_crc_offset = 508

abbrev pub segment_node_id_offset : ℕ
segment_node_id_offset = 38

-- The decimal digits of a u64, of which there are 20 at most.
decimal_loop : ℕ → ℕ → Text → Text
decimal_loop zero n acc = acc
decimal_loop (suc fuel) n acc =
    let digits = (48 + n % 10) ∷ acc in
    let rest = decimal_loop fuel (n / 10) digits in if ltb n 10 then digits else rest

unfoldable pub decimal : ℕ → Text
unfolding decimal_loop
decimal n = decimal_loop 20 n []

-- `format!("{segment_id:016}.wal")` in the directory
pub segment_path : Text → ℕ → Text
unfolding decimal
segment_path dir id =
    let digits = decimal id in
    dir ++ (codes "/" ++ (replicate (16 - length digits) 48 ++ (digits ++ codes ".wal")))

-- The bytes before the node id.
pub segment_prefix : ℕ → ℕ → ℕ → ℕ → Bytes
segment_prefix segment_id now start_lsn node_id_len =
    segment_magic
    ++ (be_bytes 2 1
        ++ (be_bytes 2 512
            ++ (be_bytes 8 segment_id
                ++ (be_bytes 8 now ++ (be_bytes 8 start_lsn ++ be_bytes 2 node_id_len)))))

-- All of the header but its CRC.
pub segment_body : ℕ → ℕ → Text → ℕ → Bytes
segment_body now segment_id node_id start_lsn =
    segment_prefix segment_id now start_lsn (length node_id)
    ++ (node_id ++ replicate (470 - length node_id) 0)

unfoldable pub serialize_segment_header : Codec → ℕ → ℕ → Text → ℕ → Result IoError Bytes
unfolding segment_prefix segment_body
serialize_segment_header c now segment_id node_id start_lsn = do
  guard (leb (length node_id) (segment_header_crc_offset - segment_node_id_offset))
      (input_error "wal segment node_id is longer than 470 bytes" [])
  let body = segment_body now segment_id node_id start_lsn
  ok (body ++ be_bytes 4 (c.crc body))

pub record SegmentHeader : Type 0 where
  pub segment_id : ℕ
  pub start_lsn : ℕ
  pub node_id : Text

-- The checks on the 512 bytes, in the order of the source.
pub parse_segment_header : Codec → Text → Bytes → Result IoError SegmentHeader
parse_segment_header c path h = do
  guard (bytes_eq (slice 0 8 h) segment_magic) (data_error "invalid wal segment identifier: " path)
  guard (from_be (slice 8 2 h) == 1) (
      data_error "unsupported wal segment version "
        (decimal (from_be (slice 8 2 h)) ++ (codes ": " ++ path)))
  guard (from_be (slice 10 2 h) == segment_header_len)
      (data_error "invalid wal segment header length: " path)
  guard (c.crc (take segment_header_crc_offset h) == from_be (slice segment_header_crc_offset 4 h))
      (data_error "wal segment header crc mismatch: " path)
  let node_id_len = from_be (slice 36 2 h)
  guard (leb (segment_node_id_offset + node_id_len) segment_header_crc_offset)
      (data_error "invalid wal segment node_id length: " path)
  node_id ← ok_or (from_utf8 (slice segment_node_id_offset node_id_len h)) (
      data_error "invalid wal segment node_id: "
        (c.utf8_error (slice segment_node_id_offset node_id_len h)))
  ok (record {
    segment_id = from_be (slice 12 8 h);
    start_lsn = from_be (slice 28 8 h);
    node_id = node_id;
  })

-- The header, and what follows it in the file. A short file is an error here.
pub read_segment_header : Codec → Text → Bytes → Result IoError (SegmentHeader × Bytes)
unfolding parse_segment_header
read_segment_header c path src = do
  (h, rest) ← ok_or (read_exact segment_header_len src) eof_error
  header ← parse_segment_header c path h
  ok (header, rest)
