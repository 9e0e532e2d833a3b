-- ===== src/Wal/Frame/Torn.antt =====
-- A frame that a crash cut short.
use ingest4x.Prelude.{
  ℕ, ◌+◌, ◌<◌, ◌≡◌, refl, none, [], ◌++◌, length, take, length-append, length-take, arith,
}
use ingest4x.Bytes.{Bytes}
use ingest4x.Text.{Text, from_utf8}
use ingest4x.Result.{ok}
use ingest4x.Wal.Record.{WalRecord, Codec, IsCodec, IsTyped, received_at_ms}
use ingest4x.Wal.Frame.{record_magic, frame_bytes, serialize_frame, read_body, read_record_frame}
use ingest4x.Wal.Frame.Header.{length-header}
use ingest4x.Wal.Frame.Reads.{try_read-short, try_read-cut}
use ingest4x.Wal.Frame.RoundTrip.{Written, serialize_frame-Written, head, header_bytes, parsed}

module _ (c : Codec) (law : IsCodec c) (r : WalRecord) (t : IsTyped r) (frame : Bytes)
    (w : Written c r frame) (path : Text) (start : ℕ) where
  abbrev hb : Bytes
  hb = header_bytes c law r t frame w path start

  body-torn :
      (k : ℕ)
      → k < length (r.node_id ++ w.body)
      → read_body c path start (head c law r t frame w path start) (take k (r.node_id ++ w.body))
        ≡ ok none
  unfolding read_body from_utf8
  body-torn k h =
      try_read-cut (length r.node_id) k r.node_id w.body _ refl
        (λ j e. rw t.node_id_utf8 (
          try_read-short (length w.body) (take j w.body) _
            (omega (arith, length-append r.node_id w.body, length-take j w.body))))
        (omega arith)

  read-torn :
      (k : ℕ)
      → k < length (record_magic ++ (hb ++ (r.node_id ++ w.body)))
      → read_record_frame c path (take k (record_magic ++ (hb ++ (r.node_id ++ w.body)))) start
        ≡ ok none
  unfolding read_record_frame
  read-torn k h =
      try_read-cut 8 k record_magic (hb ++ (r.node_id ++ w.body)) _ refl
        (λ j e.
          try_read-cut 34 j hb (r.node_id ++ w.body) _ (length-header _ _ _ _ _ _)
            (λ i p. rw (parsed c law r t frame w path start) (
              body-torn i (
                omega (
                  arith,
                  length-append hb (r.node_id ++ w.body),
                  length-header (42 + length r.node_id) r.lsn (received_at_ms r) (length r.node_id)
                      (length w.body) (c.crc w.body),
                ))))
            (omega arith))
        (omega arith)

-- A frame that was written for a record whose words fit and that was cut anywhere before its end is read
-- as the end of the log, not as an error, if the codec keeps its promise.
pub read-take_serialize :
    (c : Codec) (r : WalRecord) (frame : Bytes) (path : Text) (start k : ℕ)
    → IsCodec c
    → IsTyped r
    → serialize_frame c r ≡ ok frame
    → k < length frame
    → read_record_frame c path (take k frame) start ≡ ok none
unfolding frame_bytes
read-take_serialize c r frame path start k law t h hk =
    let w : Written c r frame = serialize_frame-Written c r frame h in
    rw w.is_frame (read-torn c law r t frame w path start k (rw w.is_frame at hk))

pub read_nothing :
    (c : Codec) (path : Text) (start : ℕ) → read_record_frame c path [] start ≡ ok none
unfolding read_record_frame
read_nothing c path start = try_read-short 8 [] _ (omega arith)
