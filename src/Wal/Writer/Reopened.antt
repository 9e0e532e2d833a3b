-- ===== src/Wal/Writer/Reopened.antt =====
-- What a start makes of the active segment's file, also after a crash: `ensure_segment_file` and the
-- repair.
use ingest4x.Prelude.{
  ℕ, ◌+◌, ◌<◌, ◌^◌, ◌≡◌, ◌⊎◌, inl, inr, refl, sym, ap, ◌∙◌, true, false, ◌&&◌, not, none, some, [],
  ◌++◌, length, length-append, append-nil, ◌==◌, ==_refl, Bool-cases, arith,
}
use ingest4x.Bytes.{Bytes}
use ingest4x.Text.{Text, is_utf8}
use ingest4x.Result.{ok}
use ingest4x.Wal.Record.{Codec, IsCodec}
use ingest4x.Wal.Segment.{segment_path, segment_header_len, SegmentHeader, read_segment_header}
use ingest4x.Wal.Segment.RoundTrip.{length-serialize_segment_header}
use ingest4x.Wal.Scan.{repair_segment_tail}
use ingest4x.Wal.Scan.Image.{Writes, image, Tail, nothing}
use ingest4x.Wal.Scan.Recovery.{IsSegment, header, header_read, repair_segment_tail-image}
use ingest4x.Wal.Log.{Segments}
use ingest4x.Wal.Files.{find_file, put_file, drop_file, find_file-put_file, find_file-drop_file}
use ingest4x.Wal.Writer.State.{WriterEnv, WriterState, Exec, continue, ◌>>=◌, ◌>>◌, pure, lift, io}
use ingest4x.Wal.Writer.Disk.{
  set_file, unset_file, create_segment_file, same_segment_id, same_node_id, made_anew,
  checked_segment, ensure_segment_file,
}
use ingest4x.Wal.Writer.Ensures.{Ensures, io-then, lift-then, found-then, io_last}
use ingest4x.Wal.Writer.Active.{Active, Active-new}
use ingest4x.Wal.Writer.Steps.{create_segment_file-Ensures}
use ingest4x.Wal.Writer.Open.{repair_active}

-- A segment file as a crash may leave it: at most one torn frame behind the whole ones. A header without
-- a whole frame names the LSN that comes next, or nothing stands behind it.
pub record Crashed (c : Codec) (ss : Segments) (id next : ℕ) : Type 0 where
  pub header_bytes : Bytes
  pub start_lsn : ℕ
  pub writes : Writes
  pub tail : Bytes
  pub is_segment : IsSegment c header_bytes id start_lsn writes
  pub is_tail : Tail c tail
  pub file : find_file id ss ≡ some (header_bytes ++ (image writes ++ tail))
  pub first : writes ≡ [] → (tail ≡ []) ⊎ (start_lsn ≡ next)

-- The file is there and takes the record with the LSN `next`.
pub record Ready (c : Codec) (id next : ℕ) (t : WriterState) : Type 0 where
  pub crashed : Crashed c t.segments id next
  pub starts : crashed.writes ≡ [] → crashed.start_lsn ≡ next
  pub is_last : (i : ℕ) → id < i → find_file i t.segments ≡ none

module _ (env : WriterEnv) (law : IsCodec env.codec) (utf8 : is_utf8 env.node_id ≡ true)
    (id next : ℕ) (id_fits : id < 2 ^ 64) (next_fits : next < 2 ^ 64) where
  abbrev pub Anything : WriterState → Type 0
  Anything t = Unit {0}

  abbrev pub Readied : Unit {0} → WriterState → Type 0
  Readied u t = Ready env.codec id next t

  from_active :
      (t : WriterState)
      → Active env.codec t.segments id 512 next
      → ((i : ℕ) → id < i → find_file i t.segments ≡ none)
      → Ready env.codec id next t
  from_active t a above = record {
    crashed = record {
      header_bytes = a.header_bytes;
      start_lsn = a.start_lsn;
      writes = a.writes;
      tail = [];
      is_segment = a.is_segment;
      is_tail = nothing;
      file = a.file ∙ ap (λ bs. some (a.header_bytes ++ bs)) (sym (append-nil (image a.writes)));
      first = λ q. inl refl;
    };
    starts = a.first;
    is_last = above;
  }

  created :
      (w : WriterState)
      → ((i : ℕ) → id < i → find_file i w.segments ≡ none)
      → Ensures Readied Anything
          (create_segment_file env id next w).0
          (create_segment_file env id next w).1
  created w above =
      create_segment_file-Ensures env Readied Anything id next w (λ n. tt)
        (λ hb e n. (
          from_active (record w { segments = put_file id hb w.segments; calls = n })
              (Active-new env.codec w.segments id (env.now_ms w.calls) env.node_id next hb e id_fits
                next_fits utf8)
              (λ i l.
                let q : (id == i) ≡ false = ground arith in
                rw (find_file-put_file id i hb w.segments, q) (above i l)),
          tt,
        ))

  -- The file that is there is checked, and made anew if it holds no frame and names another LSN.
  checked :
      (w : WriterState) (k : Crashed env.codec w.segments id next)
      (found_header : SegmentHeader × Bytes)
      → ((i : ℕ) → id < i → find_file i w.segments ≡ none)
      → found_header.0.start_lsn ≡ k.start_lsn
      → Ensures Readied Anything
          (checked_segment env id next
            (k.header_bytes ++ (image k.writes ++ k.tail))
            found_header
            w).0
          (checked_segment env id next
            (k.header_bytes ++ (image k.writes ++ k.tail))
            found_header
            w).1
  checked w k (h, rest) above same =
      lift-then Readied Anything (same_segment_id env id h)
        (λ u. lift (same_node_id env id h) >> made_anew env id next whole h) w tt
        (λ u e.
          lift-then Readied Anything (same_node_id env id h) (λ v. made_anew env id next whole h) w
            tt
            (λ v e'.
              go (Bool-cases ((length whole == segment_header_len) && not (h.start_lsn == next)))))
    where
      whole : Bytes
      whole = k.header_bytes ++ (image k.writes ++ k.tail)

      first_lsn :
          k.writes ≡ []
          → (k.tail ≡ []) ⊎ (k.start_lsn ≡ next)
          → ((length whole == segment_header_len) && not (h.start_lsn == next)) ≡ false
          → k.start_lsn ≡ next
      first_lsn q (inr e) f = e
      first_lsn q (inl e) f =
          let l : length whole ≡ 512 = omega (
            arith,
            length-append k.header_bytes (image k.writes ++ k.tail),
            length-append (image k.writes) k.tail,
            ap (λ ws. length (image ws)) q,
            ap length e,
            length-serialize_segment_header env.codec k.is_segment.now id k.is_segment.node_id
                k.start_lsn k.header_bytes k.is_segment.header_written,
          ) in
          ground (arith, l, f, same)

      go :
          (((length whole == segment_header_len) && not (h.start_lsn == next)) ≡ true)
            ⊎ (((length whole == segment_header_len) && not (h.start_lsn == next)) ≡ false)
          → Ensures Readied Anything
              (made_anew env id next whole h w).0
              (made_anew env id next whole h w).1
      go (inl e) = rw (e) (
          io-then Readied Anything env
            (unset_file id >> (io env >> create_segment_file env id next)) w tt
            (io-then Readied Anything env (create_segment_file env id next)
              (record w { segments = drop_file id w.segments; calls = w.calls + 1 }) tt
              (created (record w { segments = drop_file id w.segments; calls = (w.calls + 1) + 1 })
                (λ i l.
                  let q : (id == i) ≡ false = ground arith in
                  rw (find_file-drop_file id i w.segments, q) (above i l)))))
      go (inr e) = rw (e) (
          io_last env Readied Anything w
            (record { crashed = k; starts = λ q. first_lsn q (k.first q) e; is_last = above })
            (λ x. tt))

  -- The segment file of the id, made or checked.
  pub ensure_segment_file-Ready :
      (w : WriterState)
      → (find_file id w.segments ≡ none) ⊎ Crashed env.codec w.segments id next
      → ((i : ℕ) → id < i → find_file i w.segments ≡ none)
      → Ensures Readied Anything
          (ensure_segment_file env id next w).0
          (ensure_segment_file env id next w).1
  unfolding ensure_segment_file
  ensure_segment_file-Ready w (inl e) above = rw (e) (created w above)
  ensure_segment_file-Ready w (inr k) above = rw (k.file) (
      io-then Readied Anything env
        (λ w1.
          continue (read_segment_header env.codec path whole) (checked_segment env id next whole)
            w1)
        w tt
        (rw
          (header_read env.codec law path k.header_bytes id k.start_lsn k.writes k.is_segment k.tail
            k.is_tail (image k.writes ++ k.tail))
          (checked (record w { calls = w.calls + 1 }) kept
            (
              header env.codec law path k.header_bytes id k.start_lsn k.writes k.is_segment k.tail
                  k.is_tail,
              image k.writes ++ k.tail,
            )
            above refl)))
    where
      path : Text
      path = segment_path env.dir id

      whole : Bytes
      whole = k.header_bytes ++ (image k.writes ++ k.tail)

      kept : Crashed env.codec w.segments id next
      kept = k

  abbrev pub Repaired : ℕ → WriterState → Type 0
  Repaired offset t =
      Active env.codec t.segments id offset next
      × ((i : ℕ) → id < i → find_file i t.segments ≡ none)

  -- The torn frame is cut off.
  pub repair_active-Repaired :
      (w : WriterState)
      → Ready env.codec id next w
      → Ensures Repaired Anything (repair_active env id w).0 (repair_active env id w).1
  repair_active-Repaired w ready =
      found-then Repaired Anything (find_file id w.segments) whole cut w k.file (
        rw (repaired) (
          io-then Repaired Anything env
            (set_file id kept >> (io env >> pure (512 + length (image k.writes)))) w tt
            (io-then Repaired Anything env (pure (512 + length (image k.writes)))
              (record w { segments = put_file id kept w.segments; calls = w.calls + 1 }) tt
              (active, above))))
    where
      k : Crashed env.codec w.segments id next
      k = ready.crashed

      path : Text
      path = segment_path env.dir id

      whole : Bytes
      whole = k.header_bytes ++ (image k.writes ++ k.tail)

      kept : Bytes
      kept = k.header_bytes ++ image k.writes

      cut : Bytes → Exec ℕ
      cut file = lift (repair_segment_tail env.codec path file) >>= λ r.
          io env >> (set_file id (r.1) >> (io env >> pure (r.0)))

      repaired : repair_segment_tail env.codec path whole ≡ ok (512 + length (image k.writes), kept)
      repaired =
          repair_segment_tail-image env.codec path k.header_bytes id k.start_lsn k.writes k.tail law
            k.is_segment k.is_tail

      active :
          Active env.codec (put_file id kept w.segments) id (512 + length (image k.writes)) next
      active = record {
        header_bytes = k.header_bytes;
        start_lsn = k.start_lsn;
        writes = k.writes;
        is_segment = k.is_segment;
        file = rw (find_file-put_file id id kept w.segments, ==_refl id) refl;
        at_end = refl;
        first = ready.starts;
      }

      above : (i : ℕ) → id < i → find_file i (put_file id kept w.segments) ≡ none
      above i l =
          let q : (id == i) ≡ false = ground arith in
          rw (find_file-put_file id i kept w.segments, q) (ready.is_last i l)
