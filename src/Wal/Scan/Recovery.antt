-- ===== src/Wal/Scan/Recovery.antt =====
-- What a scan of a segment file finds after a crash, and what its repair leaves.
use ingest4x.Prelude.{
  ℕ, suc, ◌+◌, ◌^◌, ◌<◌, ◌≡◌, refl, sym, ap, true, false, [], ◌∷◌, ◌++◌, length, length-append,
  append_assoc, take, take-append, arith, subst,
}
use ingest4x.Bytes.{Bytes}
use ingest4x.Text.{Text, is_utf8}
use ingest4x.Result.{ok, err, data_error}
use ingest4x.Wal.Record.{Codec, IsCodec}
use ingest4x.Wal.Segment.{serialize_segment_header, SegmentHeader, read_segment_header}
use ingest4x.Wal.Segment.RoundTrip.{read-serialize_segment_header, length-serialize_segment_header}
use ingest4x.Wal.Scan.{starts_at, scan_segment, repair_segment_tail}
use ingest4x.Wal.Scan.Image.{Writes, AreWritten, image, written, Tail, nothing, scan_loop-image}

-- A segment file: a header that was written, and the frames behind it.
pub record IsSegment (c : Codec) (header_bytes : Bytes) (segment start_lsn : ℕ) (ws : Writes)
    : Type 0 where
  pub now : ℕ
  pub node_id : Text
  pub segment_fits : segment < 2 ^ 64
  pub start_fits : start_lsn < 2 ^ 64
  pub node_id_utf8 : is_utf8 node_id ≡ true
  pub header_written : serialize_segment_header c now segment node_id start_lsn ≡ ok header_bytes
  pub frames_written : AreWritten c ws
  pub first_lsn : starts_at (written ws) start_lsn ≡ true

pub AreWritten-append :
    (c : Codec) (ws vs : Writes) → AreWritten c (ws ++ vs) → AreWritten c ws × AreWritten c vs
AreWritten-append c [] vs a = (tt, a)
AreWritten-append c (w ∷ ws) vs a = let (p, q) = AreWritten-append c ws vs a.2 in ((a.0, a.1, p), q)

pub image-append : (ws vs : Writes) → image (ws ++ vs) ≡ image ws ++ image vs
image-append [] vs = refl
image-append ((r, f) ∷ ws) vs = rw (image-append ws vs) (sym (append_assoc f (image ws) (image vs)))

module _ (c : Codec) (law : IsCodec c) (path : Text) (hb : Bytes) (segment start_lsn : ℕ)
    (ws : Writes) (s : IsSegment c hb segment start_lsn ws) (tail : Bytes) (t : Tail c tail) where
  abbrev pub header : SegmentHeader
  header = record { segment_id = segment; start_lsn = start_lsn; node_id = s.node_id }

  pub header_read : (rest : Bytes) → read_segment_header c path (hb ++ rest) ≡ ok (header, rest)
  header_read rest =
      read-serialize_segment_header c s.now segment s.node_id start_lsn path hb rest law
        s.segment_fits s.start_fits s.node_id_utf8 s.header_written

  scan-file :
      scan_segment c path (hb ++ (image ws ++ tail))
      ≡ ok (record { records = written ws; valid_offset = 512 + length (image ws) })
  unfolding scan_segment
  scan-file = rw (header_read (image ws ++ tail)) (
      rw
        (scan_loop-image c law path ws tail 512 (suc (length (image ws ++ tail))) s.frames_written t
          (omega arith))
        (rw s.first_lsn))

-- With a codec that keeps its promise, a scan of a segment file whose last frame may be cut short gives the records of all whole frames, in
-- order, and the offset behind the last of them.
pub scan_segment-image :
    (c : Codec) (path : Text) (hb : Bytes) (segment start_lsn : ℕ) (ws : Writes) (tail : Bytes)
    → IsCodec c
    → IsSegment c hb segment start_lsn ws
    → Tail c tail
    → scan_segment c path (hb ++ (image ws ++ tail))
      ≡ ok (record { records = written ws; valid_offset = 512 + length (image ws) })
scan_segment-image c path hb segment start_lsn ws tail law s t =
    scan-file c law path hb segment start_lsn ws s tail t

-- The repair of a segment file, whole frames and at most one torn frame behind its header, cuts off the
-- torn frame and nothing else: header and whole frames stay. The codec keeps its promise.
pub repair_segment_tail-image :
    (c : Codec) (path : Text) (hb : Bytes) (segment start_lsn : ℕ) (ws : Writes) (tail : Bytes)
    → IsCodec c
    → IsSegment c hb segment start_lsn ws
    → Tail c tail
    → repair_segment_tail c path (hb ++ (image ws ++ tail))
      ≡ ok (512 + length (image ws), hb ++ image ws)
unfolding repair_segment_tail
repair_segment_tail-image c path hb segment start_lsn ws tail law s t =
    rw (scan-file c law path hb segment start_lsn ws s tail t)
      (ap (λ (b : Bytes). ok (512 + length (image ws), b)) cut)
  where
    whole : length (hb ++ image ws) ≡ 512 + length (image ws)
    whole = omega (
      arith,
      length-append hb (image ws),
      length-serialize_segment_header c s.now segment s.node_id start_lsn hb s.header_written,
    )

    cut : take (512 + length (image ws)) (hb ++ (image ws ++ tail)) ≡ hb ++ image ws
    cut = rw (← append_assoc hb (image ws) tail) (
        subst (λ n. take n ((hb ++ image ws) ++ tail) ≡ hb ++ image ws) whole
          (take-append (hb ++ image ws) tail))

-- A file whose first frame has another LSN than its header names is refused.
pub scan_segment-mismatch :
    (c : Codec) (path : Text) (hb : Bytes) (segment start_lsn : ℕ) (ws : Writes)
    → IsCodec c
    → IsSegment c hb segment start_lsn []
    → AreWritten c ws
    → starts_at (written ws) start_lsn ≡ false
    → scan_segment c path (hb ++ (image ws ++ []))
      ≡ err (data_error "wal segment start_lsn mismatch: " path)
unfolding scan_segment
scan_segment-mismatch c path hb segment start_lsn ws law s a h =
    rw (header_read c law path hb segment start_lsn [] s [] nothing (image ws ++ [])) (
      rw
        (scan_loop-image c law path ws [] 512 (suc (length (image ws ++ []))) a nothing
          (omega arith))
        (rw h refl))
