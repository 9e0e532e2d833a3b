-- ===== src/Wal/Writer/Active.antt =====
-- The active segment: a header that was written and whole frames behind it, up to the offset.
use ingest4x.Prelude.{
  ℕ, ◌+◌, ◌<◌, ◌≤◌, ◌^◌, ◌≡◌, refl, sym, ap, ◌∙◌, subst, true, some, [], ◌∷◌, ◌++◌, append-nil,
  append_assoc, length, length-append, ==_refl, arith,
}
use ingest4x.Bytes.{Bytes}
use ingest4x.Text.{Text, is_utf8}
use ingest4x.Result.{ok}
use ingest4x.Wal.Record.{WalRecord, WalPosition, Codec, IsTyped}
use ingest4x.Wal.Frame.{serialize_frame}
use ingest4x.Wal.Segment.{serialize_segment_header}
use ingest4x.Wal.Segment.RoundTrip.{length-serialize_segment_header}
use ingest4x.Wal.Scan.{starts_at}
use ingest4x.Wal.Scan.Image.{Writes, AreWritten, image, written}
use ingest4x.Wal.Scan.Recovery.{IsSegment, image-append}
use ingest4x.Wal.Log.{Segments}
use ingest4x.Wal.Files.{find_file, put_file, find_file-put_file}
use ingest4x.Wal.Writer.Grown.{Extends}

-- `next` is the LSN that the segment begins with if it holds no frame.
pub record Active (c : Codec) (ss : Segments) (current offset next : ℕ) : Type 0 where
  pub header_bytes : Bytes
  pub start_lsn : ℕ
  pub writes : Writes
  pub is_segment : IsSegment c header_bytes current start_lsn writes
  pub file : find_file current ss ≡ some (header_bytes ++ image writes)
  pub at_end : offset ≡ 512 + length (image writes)
  pub first : writes ≡ [] → start_lsn ≡ next

-- A frame stands in the file of the position's segment, at its offset.
pub record Stands (c : Codec) (ss : Segments) (r : WalRecord) (p : WalPosition) : Type 0 where
  pub is_typed : IsTyped r
  pub frame : Bytes
  pub is_frame : serialize_frame c r ≡ ok frame
  pub before : Bytes
  pub after : Bytes
  pub in_file : find_file p.segment ss ≡ some (before ++ (frame ++ after))
  pub at_offset : p.offset ≡ length before
  pub behind_header : 512 ≤ p.offset
  pub same_lsn : p.lsn ≡ r.lsn

pub Stands-Extends :
    (c : Codec) (ss ts : Segments) (r : WalRecord) (p : WalPosition)
    → Extends ss ts
    → Stands c ss r p
    → Stands c ts r p
Stands-Extends c ss ts r p x s =
    let (more, h) = x p.segment (s.before ++ (s.frame ++ s.after)) s.in_file in
    record {
      is_typed = s.is_typed;
      frame = s.frame;
      is_frame = s.is_frame;
      before = s.before;
      after = s.after ++ more;
      in_file =
          h
          ∙ ap some (
              append_assoc s.before (s.frame ++ s.after) more
              ∙ ap (λ t. s.before ++ t) (append_assoc s.frame s.after more));
      at_offset = s.at_offset;
      behind_header = s.behind_header;
      same_lsn = s.same_lsn;
    }

AreWritten-snoc :
    (c : Codec) (ws : Writes) (r : WalRecord) (f : Bytes)
    → AreWritten c ws
    → IsTyped r
    → serialize_frame c r ≡ ok f
    → AreWritten c (ws ++ ((r, f) ∷ []))
AreWritten-snoc c [] r f a t h = (t, h, tt)
AreWritten-snoc c (w ∷ ws) r f a t h = (a.0, a.1, AreWritten-snoc c ws r f a.2 t h)

starts_at_snoc :
    (ws : Writes) (r : WalRecord) (f : Bytes) (start : ℕ)
    → starts_at (written ws) start ≡ true
    → (ws ≡ [] → start ≡ r.lsn)
    → starts_at (written (ws ++ ((r, f) ∷ []))) start ≡ true
starts_at_snoc [] r f start h e = rw (e refl) (==_refl r.lsn)
starts_at_snoc (w ∷ ws) r f start h e = h

not_empty : (ws : Writes) (w : WalRecord × Bytes) → ws ++ (w ∷ []) ≡ [] → ⊥
not_empty [] w h = cc
not_empty (v ∷ ws) w h = cc

module _ (c : Codec) (ss : Segments) (current : ℕ) where
  -- The file with one more frame.
  pub Active-append :
      (offset next : ℕ) (r : WalRecord) (f : Bytes)
      → (a : Active c ss current offset r.lsn) → IsTyped r
      → serialize_frame c r ≡ ok f
      → Active c
          (put_file current ((a.header_bytes ++ image a.writes) ++ f) ss)
          current
          (offset + length f)
          next
  Active-append offset next r f a t h = record {
    header_bytes = a.header_bytes;
    start_lsn = a.start_lsn;
    writes = a.writes ++ ((r, f) ∷ []);
    is_segment = record {
      now = a.is_segment.now;
      node_id = a.is_segment.node_id;
      segment_fits = a.is_segment.segment_fits;
      start_fits = a.is_segment.start_fits;
      node_id_utf8 = a.is_segment.node_id_utf8;
      header_written = a.is_segment.header_written;
      frames_written = AreWritten-snoc c a.writes r f a.is_segment.frames_written t h;
      first_lsn = starts_at_snoc a.writes r f a.start_lsn a.is_segment.first_lsn a.first;
    };
    file =
        rw
          (
            find_file-put_file current current ((a.header_bytes ++ image a.writes) ++ f) ss,
            ==_refl current,
          )
          (ap some (
            append_assoc a.header_bytes (image a.writes) f
            ∙ ap (λ t. a.header_bytes ++ t)
                (sym (
                  image-append a.writes ((r, f) ∷ [])
                  ∙ ap (λ t. image a.writes ++ t) (append-nil f)))));
    at_end = omega (
      arith,
      a.at_end,
      length-append (image a.writes) (f ++ []),
      length-append f [],
      ap length (image-append a.writes ((r, f) ∷ [])),
    );
    first = λ e. absurd (not_empty a.writes (r, f) e);
  }

  pub Active-Stands :
      (offset : ℕ) (r : WalRecord) (f : Bytes)
      → (a : Active c ss current offset r.lsn) → IsTyped r
      → serialize_frame c r ≡ ok f
      → Stands c
          (put_file current ((a.header_bytes ++ image a.writes) ++ f) ss)
          r
          (record { lsn = r.lsn; segment = current; offset = offset })
  Active-Stands offset r f a t h = record {
    is_typed = t;
    frame = f;
    is_frame = h;
    before = a.header_bytes ++ image a.writes;
    after = [];
    in_file =
        rw
          (
            find_file-put_file current current ((a.header_bytes ++ image a.writes) ++ f) ss,
            ==_refl current,
          )
          (ap (λ t. some ((a.header_bytes ++ image a.writes) ++ t)) (sym (append-nil f)));
    at_offset = omega (
      arith,
      a.at_end,
      length-append a.header_bytes (image a.writes),
      length-serialize_segment_header c a.is_segment.now current a.is_segment.node_id a.start_lsn
          a.header_bytes a.is_segment.header_written,
    );
    behind_header = omega (arith, a.at_end);
    same_lsn = refl;
  }

  -- A new segment without a frame.
  pub Active-new :
      (now : ℕ) (node_id : Text) (lsn : ℕ) (hb : Bytes)
      → serialize_segment_header c now current node_id lsn ≡ ok hb
      → current < 2 ^ 64
      → lsn < 2 ^ 64
      → is_utf8 node_id ≡ true
      → Active c (put_file current hb ss) current 512 lsn
  Active-new now node_id lsn hb h p q u = record {
    header_bytes = hb;
    start_lsn = lsn;
    writes = [];
    is_segment = record {
      now = now;
      node_id = node_id;
      segment_fits = p;
      start_fits = q;
      node_id_utf8 = u;
      header_written = h;
      frames_written = tt;
      first_lsn = refl;
    };
    file =
        rw (find_file-put_file current current hb ss, ==_refl current)
          (ap some (sym (append-nil hb)));
    at_end = refl;
    first = λ e. refl;
  }

  pub Active_next :
      (offset m n : ℕ) → Active c ss current offset m → m ≡ n → Active c ss current offset n
  Active_next offset m n a e = subst (Active c ss current offset) e a
