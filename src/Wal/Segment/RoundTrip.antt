-- ===== src/Wal/Segment/RoundTrip.antt =====
-- Reading back what `serialize_segment_header` wrote.
use ingest4x.Prelude.{
  ℕ, ◌+◌, ◌-◌, ◌^◌, ◌<◌, ◌≤◌, ◌≡◌, refl, ap, true, ◌++◌, length, take, drop, length-append,
  take-append, ==_refl, drop-append, length-replicate, replicate, append_assoc, arith, subst,
}
use ingest4x.Bytes.{Bytes, be_bytes, slice}
use ingest4x.Bytes.Laws.{from_be-be_bytes, read_exact-append, length-be_bytes}
use ingest4x.Text.{Text, from_utf8, is_utf8}
use ingest4x.Result.{ok}
use ingest4x.Wal.Record.{Codec, IsCodec}
use ingest4x.Wal.Segment.{
  segment_magic, segment_prefix, segment_body, serialize_segment_header, SegmentHeader,
  parse_segment_header, read_segment_header,
}

module _ (segment_id now start_lsn node_len : ℕ) (rest : Bytes) where
  abbrev bytes : Bytes
  bytes = segment_prefix segment_id now start_lsn node_len ++ rest

  magic_slice : slice 0 8 bytes ≡ segment_magic
  unfolding be_bytes slice segment_prefix
  magic_slice = refl

  version_slice : slice 8 2 bytes ≡ be_bytes 2 1
  unfolding be_bytes slice segment_prefix
  version_slice = refl

  header_len_slice : slice 10 2 bytes ≡ be_bytes 2 512
  unfolding be_bytes slice segment_prefix
  header_len_slice = refl

  segment_id_slice : slice 12 8 bytes ≡ be_bytes 8 segment_id
  unfolding be_bytes slice segment_prefix
  segment_id_slice = refl

  start_lsn_slice : slice 28 8 bytes ≡ be_bytes 8 start_lsn
  unfolding be_bytes slice segment_prefix
  start_lsn_slice = refl

  node_len_slice : slice 36 2 bytes ≡ be_bytes 2 node_len
  unfolding be_bytes slice segment_prefix
  node_len_slice = refl

  node_slice : (n : ℕ) → slice 38 n bytes ≡ take n rest
  unfolding be_bytes slice segment_prefix
  node_slice n = refl

  length-prefix : length bytes ≡ 38 + length rest
  unfolding be_bytes segment_prefix
  length-prefix = omega arith

pub length-segment_body :
    (now segment_id : ℕ) (node_id : Text) (start_lsn : ℕ)
    → length node_id ≤ 470
    → length (segment_body now segment_id node_id start_lsn) ≡ 508
unfolding segment_body
length-segment_body now id node lsn h = omega (
  arith,
  length-prefix id now lsn (length node) (node ++ replicate (470 - length node) 0),
  length-append node (replicate (470 - length node) 0),
  length-replicate (470 - length node) (let z : ℕ = 0 in z),
)

ruleset slices = (
  magic_slice, version_slice, header_len_slice, segment_id_slice, start_lsn_slice, node_len_slice,
  node_slice,
)

module _ (c : Codec) (law : IsCodec c) (now segment_id : ℕ) (node_id : Text) (start_lsn : ℕ)
    (fits : length node_id ≤ 470) (id_fits : segment_id < 2 ^ 64) (lsn_fits : start_lsn < 2 ^ 64)
    (utf8 : is_utf8 node_id ≡ true) (path : Text) where
  abbrev body : Bytes
  body = segment_body now segment_id node_id start_lsn

  abbrev check_sum : Bytes
  check_sum = be_bytes 4 (c.crc body)

  abbrev padding : Bytes
  padding = replicate (470 - length node_id) 0

  crc_input : take 508 (body ++ check_sum) ≡ body
  crc_input =
      subst (λ n. take n (body ++ check_sum) ≡ body)
        (length-segment_body now segment_id node_id start_lsn fits) (take-append body check_sum)

  crc_slice : slice 508 4 (body ++ check_sum) ≡ check_sum
  unfolding slice be_bytes
  crc_slice = ap (take 4) (
      subst (λ n. drop n (body ++ check_sum) ≡ check_sum)
        (length-segment_body now segment_id node_id start_lsn fits) (drop-append body check_sum))

  body_split :
      body ++ check_sum
      ≡ segment_prefix segment_id now start_lsn (length node_id)
        ++ (node_id ++ (padding ++ check_sum))
  unfolding segment_body
  body_split = simp append_assoc

  header : SegmentHeader
  header = record { segment_id = segment_id; start_lsn = start_lsn; node_id = node_id }

  parse-body : parse_segment_header c path (body ++ check_sum) ≡ ok header
  unfolding parse_segment_header header from_utf8
  parse-body =
      rw (crc_input, crc_slice, body_split)
        (simp
          (
            slices,
            from_be-be_bytes 2 1 (omega arith),
            from_be-be_bytes 2 512 (omega arith),
            from_be-be_bytes 2 (length node_id) (omega arith),
            from_be-be_bytes 8 segment_id id_fits,
            from_be-be_bytes 8 start_lsn lsn_fits,
            from_be-be_bytes 4 (c.crc body) (law.crc_bound body),
            take-append node_id (padding ++ check_sum),
            utf8,
            ==_refl,
          )
          (ground arith))

  read-header :
      (rest : Bytes) → read_segment_header c path ((body ++ check_sum) ++ rest) ≡ ok (header, rest)
  unfolding read_segment_header
  read-header rest = rw (
    read_exact-append (body ++ check_sum) rest 512 (
        omega (
          arith,
          length-append body check_sum,
          length-segment_body now segment_id node_id start_lsn fits,
          length-be_bytes 4 (c.crc body),
        )),
    parse-body,
  )

-- A segment header that was written is read back, with what follows it in the file.
pub read-serialize_segment_header :
    (c : Codec) (now segment_id : ℕ) (node_id : Text) (start_lsn : ℕ) (path : Text)
    (header_bytes rest : Bytes)
    → IsCodec c
    → segment_id < 2 ^ 64
    → start_lsn < 2 ^ 64
    → is_utf8 node_id ≡ true
    → serialize_segment_header c now segment_id node_id start_lsn ≡ ok header_bytes
    → read_segment_header c path (header_bytes ++ rest)
      ≡ ok (record { segment_id = segment_id; start_lsn = start_lsn; node_id = node_id }, rest)
unfolding serialize_segment_header header
read-serialize_segment_header c now id node lsn path hb rest law hi hl u h =
    let fits : length node ≤ 470 = ground arith in
    let e : segment_body now id node lsn ++ be_bytes 4 (c.crc (segment_body now id node lsn)) ≡ hb =
      ground arith in
    rw (← e) (read-header c law now id node lsn fits hi hl u path rest)

-- A segment header has 512 bytes.
pub length-serialize_segment_header :
    (c : Codec) (now segment_id : ℕ) (node_id : Text) (start_lsn : ℕ) (header_bytes : Bytes)
    → serialize_segment_header c now segment_id node_id start_lsn ≡ ok header_bytes
    → length header_bytes ≡ 512
unfolding serialize_segment_header
length-serialize_segment_header c now id node lsn hb h =
    let body : Bytes = segment_body now id node lsn in
    let fits : length node ≤ 470 = ground arith in
    let e : body ++ be_bytes 4 (c.crc body) ≡ hb = ground arith in
    rw (← e) (
      omega (
        arith,
        length-append body (be_bytes 4 (c.crc body)),
        length-segment_body now id node lsn fits,
        length-be_bytes 4 (c.crc body),
      ))
