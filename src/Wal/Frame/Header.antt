-- ===== src/Wal/Frame/Header.antt =====
-- The fixed header of a frame, field by field.
use ingest4x.Prelude.{ℕ, ◌+◌, ◌^◌, ◌<◌, ◌≡◌, refl, [], ◌∷◌, length, arith}
use ingest4x.Bytes.{Bytes, be_bytes, slice}
use ingest4x.Bytes.Laws.{from_be-be_bytes}
use ingest4x.Text.{Text}
use ingest4x.Result.{ok}
use ingest4x.Wal.Frame.{fixed_header, FrameHeader, parse_fixed_header}

module _ (header_len lsn time node_len payload_len crc : ℕ) where
  abbrev header : Bytes
  header = fixed_header header_len lsn time node_len payload_len crc

  pub length-header : length header ≡ 34
  unfolding be_bytes slice fixed_header
  length-header = refl

  version_slice : slice 0 2 header ≡ be_bytes 2 1
  unfolding be_bytes slice fixed_header
  version_slice = refl

  header_len_slice : slice 2 2 header ≡ be_bytes 2 header_len
  unfolding be_bytes slice fixed_header
  header_len_slice = refl

  type_slice : slice 4 1 header ≡ 1 ∷ []
  unfolding be_bytes slice fixed_header
  type_slice = refl

  flags_slice : slice 5 1 header ≡ 0 ∷ []
  unfolding be_bytes slice fixed_header
  flags_slice = refl

  lsn_slice : slice 8 8 header ≡ be_bytes 8 lsn
  unfolding be_bytes slice fixed_header
  lsn_slice = refl

  time_slice : slice 16 8 header ≡ be_bytes 8 time
  unfolding be_bytes slice fixed_header
  time_slice = refl

  node_len_slice : slice 24 2 header ≡ be_bytes 2 node_len
  unfolding be_bytes slice fixed_header
  node_len_slice = refl

  payload_len_slice : slice 26 4 header ≡ be_bytes 4 payload_len
  unfolding be_bytes slice fixed_header
  payload_len_slice = refl

  crc_slice : slice 30 4 header ≡ be_bytes 4 crc
  unfolding be_bytes slice fixed_header
  crc_slice = refl

abbrev pub fields : ℕ → ℕ → ℕ → ℕ → ℕ → FrameHeader
fields lsn time node_len payload_len crc = record {
  header_len = 42 + node_len;
  lsn = lsn;
  received_at = time;
  node_id_len = node_len;
  payload_len = payload_len;
  crc = crc;
}

ruleset slices = (
  version_slice, header_len_slice, type_slice, flags_slice, lsn_slice, time_slice, node_len_slice,
  payload_len_slice, crc_slice,
)

pub parse_fixed_header-fixed_header :
    (path : Text) (lsn time node_len payload_len crc : ℕ)
    → lsn < 2 ^ 64
    → time < 2 ^ 64
    → 42 + node_len < 2 ^ 16
    → payload_len < 2 ^ 32
    → crc < 2 ^ 32
    → parse_fixed_header path (fixed_header (42 + node_len) lsn time node_len payload_len crc)
      ≡ ok (fields lsn time node_len payload_len crc)
unfolding parse_fixed_header
parse_fixed_header-fixed_header path lsn time n p c hl ht hn hp hc = simp slices (
    ground (
      arith,
      from_be-be_bytes 2 1,
      from_be-be_bytes 2 (42 + n),
      from_be-be_bytes 2 n,
      from_be-be_bytes 8 lsn,
      from_be-be_bytes 8 time,
      from_be-be_bytes 4 p,
      from_be-be_bytes 4 c,
    ))
