-- ===== src/Wal/Frame/RoundTrip.antt =====
-- Reading back what `serialize_frame` wrote.
use ingest4x.Prelude.{
  ℕ, ◌+◌, ◌^◌, ◌<◌, ◌≡◌, refl, ap, ◌∙◌, Option, some, ◌++◌, length, length-append, append_assoc,
  arith,
}
use ingest4x.Bytes.{Bytes}
use ingest4x.Bytes.Laws.{bytes_eq_refl}
use ingest4x.Text.{Text, from_utf8}
use ingest4x.Result.{Result, ok, err, IoError}
use ingest4x.Wal.Record.{WalRecord, Codec, IsCodec, IsTyped, received_at_ms}
use ingest4x.Wal.Frame.{
  record_magic, fixed_header, frame_bytes, serialize_frame, FrameHeader, parse_fixed_header, Frame,
  check_payload, read_body, read_record_frame,
}
use ingest4x.Wal.Frame.Header.{length-header, parse_fixed_header-fixed_header, fields}
use ingest4x.Wal.Frame.Reads.{try_read-append}

-- What `serialize_frame` accepts and writes.
pub record Written (c : Codec) (r : WalRecord) (frame : Bytes) : Type 0 where
  pub body : Bytes
  pub encoded : c.serialize r ≡ ok body
  pub body_fits : length body < 2 ^ 32
  pub header_fits : 42 + length r.node_id < 2 ^ 16
  pub is_frame : frame ≡ frame_bytes c r body

pub serialize_frame-Written :
    (c : Codec) (r : WalRecord) (frame : Bytes) → serialize_frame c r ≡ ok frame → Written c r frame
unfolding serialize_frame
serialize_frame-Written c r frame h = go (c.serialize r) refl
  where
    go : (s : Result Text Bytes) → c.serialize r ≡ s → Written c r frame
    go (ok body) e = record {
      body = body;
      encoded = e;
      body_fits = ground arith;
      header_fits = ground arith;
      is_frame = ground arith;
    }
    go (err x) e = ground arith

module _ (c : Codec) (law : IsCodec c) (r : WalRecord) (t : IsTyped r) (frame : Bytes)
    (w : Written c r frame) (path : Text) (start : ℕ) where
  abbrev pub head : FrameHeader
  head = fields r.lsn (received_at_ms r) (length r.node_id) (length w.body) (c.crc w.body)

  abbrev pub header_bytes : Bytes
  header_bytes =
      fixed_header (42 + length r.node_id) r.lsn (received_at_ms r) (length r.node_id)
        (length w.body) (c.crc w.body)

  abbrev answer : Bytes → Result IoError (Option Frame)
  answer rest = ok (some (r, start + (42 + length r.node_id) + length w.body, rest))

  check_payload-written :
      (rest : Bytes) → check_payload c path start head r.node_id w.body rest ≡ answer rest
  unfolding check_payload
  check_payload-written rest =
      rw (law.round_trip r w.body w.encoded) (ground (arith, bytes_eq_refl r.node_id))

  read_body-written :
      (rest : Bytes) → read_body c path start head (r.node_id ++ (w.body ++ rest)) ≡ answer rest
  unfolding read_body from_utf8
  read_body-written rest =
      try_read-append (length r.node_id) r.node_id (w.body ++ rest) _ refl
      ∙ rw t.node_id_utf8
          (try_read-append (length w.body) w.body rest _ refl ∙ check_payload-written rest)

  pub parsed : parse_fixed_header path header_bytes ≡ ok head
  parsed =
      parse_fixed_header-fixed_header path r.lsn (received_at_ms r) (length r.node_id)
        (length w.body) (c.crc w.body) t.lsn_fits t.time_fits w.header_fits w.body_fits
        (law.crc_bound w.body)

  pub read-written :
      (rest : Bytes)
      → read_record_frame c path
          (record_magic ++ (header_bytes ++ (r.node_id ++ (w.body ++ rest))))
          start
        ≡ answer rest
  unfolding read_record_frame
  read-written rest =
      try_read-append 8 record_magic (header_bytes ++ (r.node_id ++ (w.body ++ rest))) _ refl
      ∙ try_read-append 34 header_bytes (r.node_id ++ (w.body ++ rest)) _
          (length-header _ _ _ _ _ _)
      ∙ rw parsed (read_body-written rest)

  pub frame-append :
      (rest : Bytes)
      → frame ++ rest ≡ record_magic ++ (header_bytes ++ (r.node_id ++ (w.body ++ rest)))
  unfolding frame_bytes
  frame-append rest = rw w.is_frame (simp append_assoc)

  pub frame_length : length frame ≡ 42 + length r.node_id + length w.body
  unfolding frame_bytes
  frame_length = rw w.is_frame (
      omega (
        arith,
        length-append header_bytes (r.node_id ++ w.body),
        length-append r.node_id w.body,
        length-header (42 + length r.node_id) r.lsn (received_at_ms r) (length r.node_id)
            (length w.body) (c.crc w.body),
      ))

  read-frame :
      (rest : Bytes)
      → read_record_frame c path (frame ++ rest) start ≡ ok (some (r, start + length frame, rest))
  read-frame rest =
      ap (λ s. read_record_frame c path s start) (frame-append rest)
      ∙ read-written rest
      ∙ ap (λ (n : ℕ). ok (some (r, n, rest))) (omega (arith, frame_length))

-- If the codec keeps its promise, the words of the record fit and its node id is UTF-8, the reader gives
-- back the record that was written, the offset behind it, and what follows the frame.
pub read-serialize :
    (c : Codec) (r : WalRecord) (frame : Bytes) (path : Text) (start : ℕ) (rest : Bytes)
    → IsCodec c
    → IsTyped r
    → serialize_frame c r ≡ ok frame
    → read_record_frame c path (frame ++ rest) start ≡ ok (some (r, start + length frame, rest))
read-serialize c r frame path start rest law t h =
    read-frame c law r t frame (serialize_frame-Written c r frame h) path start rest
