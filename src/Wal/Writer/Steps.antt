-- ===== src/Wal/Writer/Steps.antt =====
-- What each action of a flush leaves: on success a state that the next action can go on from, on an
-- error one that the roll-back can take back.
use ingest4x.Prelude.{
  ℕ, ◌+◌, ◌<◌, ◌^◌, ◌≡◌, inl, inr, refl, sym, subst, Bool, true, false, Option, none, some, ◌++◌,
  length, ◌==◌, Bool-cases, arith, take,
}
use ingest4x.Prelude.Int.{wrap_add}
use ingest4x.Bytes.{Bytes}
use ingest4x.Text.{is_utf8}
use ingest4x.Result.{Result, ok, err, guard, IoError}
use ingest4x.Wal.Record.{WalRecord, WalPosition, IsTyped}
use ingest4x.Wal.Frame.{serialize_frame}
use ingest4x.Wal.Segment.{serialize_segment_header}
use ingest4x.Wal.Scan.Image.{image}
use ingest4x.Wal.Log.{Segments}
use ingest4x.Wal.Files.{find_file, put_file}
use ingest4x.Wal.Writer.State.{Exec, WriterEnv, WriterState, continue, lift, ◌>>◌, io}
use ingest4x.Wal.Writer.Disk.{
  ensure_wal_disk_space, create_segment_file, ensure_segment_file, set_file, found, wrote,
  append_bytes,
}
use ingest4x.Wal.Writer.Flush.{is_full, roll_over, position_at, put_frame, append_frame_locked}
use ingest4x.Wal.Writer.Ensures.{Ensures, bind-Ensures, io-then, lift-then, found-then, io_last}
use ingest4x.Wal.Writer.Grown.{
  Grown, Extends, Extends-trans, put_file-Extends, new_file-Extends, Grown-next, Grown-append,
  Grown-new,
}
use ingest4x.Wal.Writer.Active.{Active, Stands, Active-append, Active-Stands, Active-new}

-- No action below touches these.
abbrev pub Same : WriterState → WriterState → Type 0
Same s w =
    (w.next_lsn ≡ s.next_lsn)
    × (w.responses ≡ s.responses)
    × (w.buffered ≡ s.buffered)
    × (w.channels ≡ s.channels)

-- `s` is the state in which the flush began, and `file` the active segment there.
abbrev pub Broken : WriterState → Bytes → WriterState → Type 0
Broken s file w = Same s w × Grown s.segments s.segment_id file w.segments w.segment_id

-- The files of `from` are there, and `room` more segments have a number.
abbrev pub Sound : WriterEnv → WriterState → Bytes → ℕ → ℕ → Segments → WriterState → Type 0
Sound env s file room next from w =
    Broken s file w
    × Active env.codec w.segments w.segment_id w.offset next
    × Extends from w.segments
    × (w.segment_id + room < 2 ^ 64)

-- A segment file that is made: its header, or nothing new.
pub create_segment_file-Ensures :
    (env : WriterEnv) (P : Unit {0} → WriterState → Type 0) (Q : WriterState → Type 0) (id lsn : ℕ)
    (w : WriterState)
    → ((n : ℕ) → Q (record w { calls = n }))
    → ((header : Bytes)
        → serialize_segment_header env.codec (env.now_ms w.calls) id env.node_id lsn ≡ ok header
        → (n : ℕ)
        → P tt (record w { segments = put_file id header w.segments; calls = n })
          × Q (record w { segments = put_file id header w.segments; calls = n }))
    → Ensures P Q (create_segment_file env id lsn w).0 (create_segment_file env id lsn w).1
unfolding create_segment_file
create_segment_file-Ensures env P Q id lsn w q put =
    io-then P Q env
      (λ w1.
        continue (serialize_segment_header env.codec (env.now_ms w.calls) id env.node_id lsn) rest
          w1)
      w (q (w.calls + 1))
      (lift-then P Q (serialize_segment_header env.codec (env.now_ms w.calls) id env.node_id lsn)
        rest (record w { calls = w.calls + 1 }) (q (w.calls + 1))
        (λ header e.
          io-then P Q env (set_file id header >> io env) (record w { calls = w.calls + 1 })
            (q ((w.calls + 1) + 1))
            (io_last env P Q
              (record w { segments = put_file id header w.segments; calls = (w.calls + 1) + 1 })
              ((put header e (((w.calls + 1) + 1) + 1)).0)
              (λ f. (put header e (((w.calls + 1) + 1) + 1)).1))))
  where
    rest : Bytes → Exec (Unit {0})
    rest header = io env >> (set_file id header >> io env)

module _ (env : WriterEnv) where
  -- The check of the free bytes changes nothing but the number of calls.
  pub ensure_wal_disk_space-Ensures :
      (P : Unit {0} → WriterState → Type 0) (Q : WriterState → Type 0) (estimated : ℕ)
      (w : WriterState)
      → P tt w
      → P tt (record w { calls = w.calls + 1 })
      → Q (record w { calls = w.calls + 1 })
      → Ensures P Q
          (ensure_wal_disk_space env estimated w).0
          (ensure_wal_disk_space env estimated w).1
  unfolding ensure_wal_disk_space
  ensure_wal_disk_space-Ensures P Q estimated w p0 p q =
      elim (Bool-cases (env.min_free_bytes == 0)) [
        | inl e ↦ rw (e) p0
        | inr e ↦ rw (e) (measured (env.available_space w.calls) _ _)
      ]
    where
      checked :
          (b : Bool) (e : IoError) → Ensures P Q (guard b e) (record w { calls = w.calls + 1 })
      checked true e = p
      checked false e = q

      measured :
          (r : Result IoError ℕ) (f : ℕ → Bool) (e : ℕ → IoError)
          → Ensures P Q
              (continue r (λ a. lift (guard (f a) (e a))) (record w { calls = w.calls + 1 })).0
              (continue r (λ a. lift (guard (f a) (e a))) (record w { calls = w.calls + 1 })).1
      measured (ok a) f e = checked (f a) (e a)
      measured (err x) f e = q

module _ (env : WriterEnv) (utf8 : is_utf8 env.node_id ≡ true) (s : WriterState)
    (file : Bytes) where
  -- A new segment of the active number.
  create_segment_file-Sound :
      (room lsn : ℕ) (from : Segments) (w : WriterState)
      → Broken s file w
      → Extends from w.segments
      → find_file w.segment_id w.segments ≡ none
      → w.offset ≡ 512
      → lsn < 2 ^ 64
      → w.segment_id + room < 2 ^ 64
      → Ensures
          (λ (u : Unit {0}) t. Sound env s file room lsn from t)
          (Broken s file)
          (create_segment_file env w.segment_id lsn w).0
          (create_segment_file env w.segment_id lsn w).1
  create_segment_file-Sound room lsn from w b x absent start fits l =
      create_segment_file-Ensures env (λ u. Sound env s file room lsn from) (Broken s file)
        w.segment_id lsn w (λ n. b) (λ header e n. (placed header e, grown header))
    where
      grown :
          (header : Bytes)
          → Broken s file (record w { segments = put_file w.segment_id header w.segments })
      grown header =
          (b.0, Grown-new s.segments s.segment_id file w.segments w.segment_id header b.1 absent)

      placed :
          (header : Bytes)
          → serialize_segment_header env.codec (env.now_ms w.calls) w.segment_id env.node_id lsn
            ≡ ok header
          → Sound env s file room lsn from
              (record w { segments = put_file w.segment_id header w.segments })
      placed header e = (
        grown header,
        subst (λ n. Active env.codec (put_file w.segment_id header w.segments) w.segment_id n lsn)
            (sym start)
            (Active-new env.codec w.segments w.segment_id (env.now_ms w.calls) env.node_id lsn
              header e (omega (arith, l)) fits utf8),
        Extends-trans from w.segments (put_file w.segment_id header w.segments) x
            (new_file-Extends w.segment_id header w.segments absent),
        l,
      )

  -- The step to the next segment, where the frame does not fit.
  roll_over-Sound :
      (room : ℕ) (from : Segments) (bytes : Bytes) (lsn : ℕ) (w : WriterState)
      → Sound env s file (room + 1) lsn from w
      → lsn < 2 ^ 64
      → Ensures
          (λ (u : Unit {0}) t. Sound env s file room lsn from t)
          (Broken s file)
          (roll_over env bytes lsn w).0
          (roll_over env bytes lsn w).1
  unfolding roll_over ensure_segment_file
  roll_over-Sound room from bytes lsn w (b, a, x, l) fits =
      elim (Bool-cases (is_full env w bytes)) [
        | inl e ↦
            rw (e, next, absent)
              (create_segment_file-Sound room lsn from
                (record w { segment_id = w.segment_id + 1; offset = 512 })
                (b.0, Grown-next s.segments s.segment_id file w.segments w.segment_id b.1) x absent
                refl fits (omega (arith, l)))
        | inr e ↦ rw (e) ((b, a, x, omega (arith, l)))
      ]
    where
      next : wrap_add w.segment_id 1 ≡ w.segment_id + 1
      next = omega (arith, l)

      absent : find_file (w.segment_id + 1) w.segments ≡ none
      absent = b.1.above (w.segment_id + 1) (omega arith)

  -- A frame that is written whole stands in the active segment; of one that is not, a part may be there.
  put_frame-Sound :
      (room next : ℕ) (from : Segments) (r : WalRecord) (bytes : Bytes) (w : WriterState)
      → Sound env s file room r.lsn from w
      → IsTyped r
      → serialize_frame env.codec r ≡ ok bytes
      → Ensures
          (λ p t. Sound env s file room next from t × Stands env.codec t.segments r p)
          (Broken s file)
          (put_frame env bytes r.lsn w).0
          (put_frame env bytes r.lsn w).1
  unfolding put_frame append_bytes
  put_frame-Sound room next from r bytes w (b, a, x, l) typed e =
      bind-Ensures R Q P (append_bytes env w.segment_id bytes)
        (λ u w'. (ok (position_at env w r.lsn), record w' { offset = w.offset + length bytes })) w
        (io-then P Q env
          (λ w1.
            found (find_file w.segment_id w1.segments)
              (λ f w2. wrote env w.segment_id f bytes (env.io_error w2.calls) w2) w1)
          w b
          (found-then P Q (find_file w.segment_id w.segments) whole
            (λ f w2. wrote env w.segment_id f bytes (env.io_error w2.calls) w2)
            (record w { calls = w.calls + 1 }) a.file (go (env.io_error (w.calls + 1)))))
        (λ u t p. p)
    where
      whole : Bytes
      whole = a.header_bytes ++ image a.writes

      R : WalPosition → WriterState → Type 0
      R p t = Sound env s file room next from t × Stands env.codec t.segments r p

      Q : WriterState → Type 0
      Q = Broken s file

      P : Unit {0} → WriterState → Type 0
      P u t = R (position_at env w r.lsn) (record t { offset = w.offset + length bytes })

      grown :
          (more : Bytes)
          → Q (record w { segments = put_file w.segment_id (whole ++ more) w.segments })
      grown more = (
        b.0,
        Grown-append s.segments s.segment_id file w.segments w.segment_id whole more b.1 a.file,
      )

      go :
          (o : Option IoError)
          → Ensures P Q
              (wrote env w.segment_id whole bytes o (record w { calls = w.calls + 1 })).0
              (wrote env w.segment_id whole bytes o (record w { calls = w.calls + 1 })).1
      go none = (
        (
          grown bytes,
          Active-append env.codec w.segments w.segment_id w.offset next r bytes a typed e,
          Extends-trans from w.segments (put_file w.segment_id (whole ++ bytes) w.segments) x
              (put_file-Extends w.segment_id whole bytes w.segments a.file),
          l,
        ),
        Active-Stands env.codec w.segments w.segment_id w.offset r bytes a typed e,
      )
      go (some x) = grown (take (env.written_part (w.calls + 1)) bytes)

  -- One record: the roll-over, the check of the free bytes, the frame.
  pub append_frame_locked-Sound :
      (room next : ℕ) (from : Segments) (r : WalRecord) (bytes : Bytes) (w : WriterState)
      → Sound env s file (room + 1) r.lsn from w
      → IsTyped r
      → serialize_frame env.codec r ≡ ok bytes
      → Ensures
          (λ p t. Sound env s file room next from t × Stands env.codec t.segments r p)
          (Broken s file)
          (append_frame_locked env bytes r.lsn w).0
          (append_frame_locked env bytes r.lsn w).1
  unfolding append_frame_locked
  append_frame_locked-Sound room next from r bytes w h typed e =
      bind-Ensures R Q P (roll_over env bytes r.lsn)
        (λ u. ensure_wal_disk_space env (length bytes) >> put_frame env bytes r.lsn) w
        (roll_over-Sound room from bytes r.lsn w h typed.lsn_fits)
        (λ u t p.
          bind-Ensures R Q P (ensure_wal_disk_space env (length bytes))
            (λ v. put_frame env bytes r.lsn) t
            (ensure_wal_disk_space-Ensures env P Q (length bytes) t p p (p.0))
            (λ v t' p'. put_frame-Sound room next from r bytes t' p' typed e))
    where
      R : WalPosition → WriterState → Type 0
      R p t = Sound env s file room next from t × Stands env.codec t.segments r p

      Q : WriterState → Type 0
      Q = Broken s file

      P : Unit {0} → WriterState → Type 0
      P u t = Sound env s file room r.lsn from t
