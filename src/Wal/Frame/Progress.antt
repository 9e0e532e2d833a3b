-- ===== src/Wal/Frame/Progress.antt =====
-- What any successful read takes from the stream.
use ingest4x.Prelude.{ℕ, ◌+◌, ◌≤◌, ◌≡◌, ap, some, length, arith}
use ingest4x.Bytes.{Bytes, bytes_eq}
use ingest4x.Text.{Text, from_utf8}
use ingest4x.Result.{ok, ok_or, data_error, bind_elim, guard}
use ingest4x.Wal.Record.{WalRecord, Codec}
use ingest4x.Wal.Frame.{
  record_magic, FrameHeader, parse_fixed_header, check_payload, read_body, read_record_frame,
}
use ingest4x.Wal.Frame.Reads.{try_read_elim}

parse_fixed_header_lens :
    (path : Text) (bs : Bytes) (h : FrameHeader)
    → parse_fixed_header path bs ≡ ok h
    → h.header_len ≡ 42 + h.node_id_len
unfolding parse_fixed_header
parse_fixed_header_lens path bs h e = ground arith

check_payload_offset :
    (c : Codec) (path : Text) (start : ℕ) (h : FrameHeader) (node_id payload after : Bytes)
    (r : WalRecord) (next : ℕ) (rest : Bytes)
    → check_payload c path start h node_id payload after ≡ ok (some (r, next, rest))
    → (next ≡ start + h.header_len + h.payload_len) × (rest ≡ after)
unfolding check_payload
check_payload_offset c path start h node_id payload after r next rest e = ground arith

read_body_progress :
    (c : Codec) (path : Text) (start : ℕ) (h : FrameHeader) (src : Bytes) (r : WalRecord) (next : ℕ)
    (rest : Bytes)
    → read_body c path start h src ≡ ok (some (r, next, rest))
    → (next ≡ start + h.header_len + h.payload_len)
      × (length src ≡ h.node_id_len + h.payload_len + length rest)
unfolding read_body
read_body_progress c path start h src r next rest e =
    try_read_elim h.node_id_len src _ e λ a b la e1.
      bind_elim (ok_or (from_utf8 a) (data_error "invalid wal record node_id: " (c.utf8_error a))) _
        e1
        λ node_id _ e2. try_read_elim h.payload_len b _ e2 λ p after lb e3.
          let (n, q) = check_payload_offset c path start h node_id p after r next rest e3 in
          (n, omega (arith, la, lb, ap length q))

-- Progress: a frame that is read takes at least 42 bytes, and exactly those up to the next offset.
pub read_record_frame_progress :
    (c : Codec) (path : Text) (src : Bytes) (start : ℕ) (r : WalRecord) (next : ℕ) (rest : Bytes)
    → read_record_frame c path src start ≡ ok (some (r, next, rest))
    → (start + 42 ≤ next) × (start + length src ≡ next + length rest)
unfolding read_record_frame
read_record_frame_progress c path src start r next rest h = try_read_elim 8 src _ h λ magic b la e1.
    bind_elim (guard (bytes_eq magic record_magic) (data_error "invalid wal record magic: " path)) _
      e1
      λ _ _ e2. try_read_elim 34 b _ e2 λ hdr after lb e3.
        bind_elim (parse_fixed_header path hdr) _ e3 λ fh pf e4. omega (
          arith,
          parse_fixed_header_lens path hdr fh pf,
          read_body_progress c path start fh after r next rest e4,
        )
