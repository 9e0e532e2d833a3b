-- ===== src/Wal/Writer/RollBack.antt =====
-- What `truncate_after` gives back: the files as they were when the flush began.
use ingest4x.Prelude.{
  ℕ, zero, suc, ◌+◌, ◌-◌, ◌<◌, ◌≤◌, ◌≡◌, inl, inr, refl, sym, ap, ◌∙◌, false, Option, none, some,
  ◌++◌, length, length-append, take-append, append-nil, ltb, ◌==◌, ==_eq, Bool-cases, arith,
}
use ingest4x.Bytes.{Bytes}
use ingest4x.Result.{IoError}
use ingest4x.Wal.Files.{
  find_file, put_file, drop_file, find_file-put_file, find_file-drop_file, SameFiles,
}
use ingest4x.Wal.Writer.State.{WriterEnv, WriterState, Exec, io, ◌>>◌}
use ingest4x.Wal.Writer.Disk.{
  found, set_file, set_len, removed, remove_existing, remove_stale, truncate_after,
}
use ingest4x.Wal.Writer.Ensures.{
  LastFailed, Ensures, bind-Ensures, io-fails-then, found-then, io_last,
}
use ingest4x.Wal.Writer.Steps.{Same, Broken}

-- The files before `id` are those of `s`, and none is left from `id + n` on.
abbrev Cleaned : WriterState → ℕ → ℕ → WriterState → Type 0
Cleaned s id n t =
    ((i : ℕ) → i < id → find_file i t.segments ≡ find_file i s.segments)
    × ((i : ℕ) → id + n ≤ i → find_file i t.segments ≡ none)
    × Same s t

abbrev pub Stopped : WriterEnv → WriterState → WriterState → Type 0
Stopped env s t = Same s t × LastFailed env t

set_len-append : (f more : Bytes) → set_len (length f) (f ++ more) ≡ f
set_len-append f more =
    let e : length f - length (f ++ more) ≡ 0 = omega (arith, length-append f more) in
    rw (e, take-append f more) (append-nil f)

module _ (env : WriterEnv) (s : WriterState)
    (above : (i : ℕ) → s.segment_id < i → find_file i s.segments ≡ none) where
  drop_file-Cleaned :
      (n id : ℕ) (w : WriterState)
      → s.segment_id < id
      → Cleaned s id (suc n) w
      → Cleaned s (id + 1) n (record w { segments = drop_file id w.segments; calls = w.calls + 1 })
  drop_file-Cleaned n id w l (before, behind, same) = (kept, gone, same)
    where
      kept : (i : ℕ) → i < id + 1 → find_file i (drop_file id w.segments) ≡ find_file i s.segments
      kept i h = elim (Bool-cases (id == i)) [
        | inl e ↦ rw (find_file-drop_file id i w.segments, e) (sym (above i (ground arith)))
        | inr e ↦ rw (find_file-drop_file id i w.segments, e) (before i (ground arith))
      ]

      gone : (i : ℕ) → (id + 1) + n ≤ i → find_file i (drop_file id w.segments) ≡ none
      gone i h = elim (Bool-cases (id == i)) [
        | inl e ↦ rw (find_file-drop_file id i w.segments, e)
        | inr e ↦ rw (find_file-drop_file id i w.segments, e) (behind i (omega arith))
      ]

  no_file-Cleaned :
      (n id : ℕ) (w : WriterState)
      → s.segment_id < id
      → find_file id w.segments ≡ none
      → Cleaned s id (suc n) w
      → Cleaned s (id + 1) n w
  no_file-Cleaned n id w l e (before, behind, same) = (
    λ i h. elim (Bool-cases (id == i)) [
      | inl q ↦
          let j : id ≡ i = ==_eq id i q in
          sym (ap (λ k. find_file k w.segments) j) ∙ e ∙ sym (above i (omega arith))
      | inr q ↦ before i (ground arith)
    ],
    λ i h. behind i (omega arith),
    same,
  )

  remove_stale-Cleaned :
      (n id : ℕ) (w : WriterState)
      → s.segment_id < id
      → Cleaned s id n w
      → Ensures
          (λ (u : Unit {0}) t. SameFiles t.segments s.segments × Same s t)
          (Stopped env s)
          (remove_stale env n id w).0
          (remove_stale env n id w).1
  unfolding remove_stale
  remove_stale-Cleaned zero id w l (before, behind, same) = (
    λ i. elim (Bool-cases (ltb i id)) [
      | inl e ↦ before i (ground arith)
      | inr e ↦ behind i (ground arith) ∙ sym (above i (ground arith))
    ],
    same,
  )
  remove_stale-Cleaned (suc n) id w l h =
      bind-Ensures R Q P (λ w1. remove_existing env id (find_file id w1.segments) w1)
        (λ u. remove_stale env n (id + 1)) w (go (find_file id w.segments) refl)
        (λ u t p. remove_stale-Cleaned n (id + 1) t (omega (arith, l)) p)
    where
      Q : WriterState → Type 0
      Q = Stopped env s

      P : Unit {0} → WriterState → Type 0
      P u t = Cleaned s (id + 1) n t

      R : Unit {0} → WriterState → Type 0
      R u t = SameFiles t.segments s.segments × Same s t

      drop :
          (o : Option IoError)
          → env.io_error w.calls ≡ o
          → Ensures P Q (removed env id o w).0 (removed env id o w).1
      drop none x = drop_file-Cleaned n id w l h
      drop (some e) x = (h.2, (w.calls, e, refl, x))

      go :
          (o : Option Bytes)
          → find_file id w.segments ≡ o
          → Ensures P Q (remove_existing env id o w).0 (remove_existing env id o w).1
      go none e = no_file-Cleaned n id w l e h
      go (some f) e = drop (env.io_error w.calls) refl

  -- The roll-back of a flush whose files grew: the old files, or a call of the operating system failed.
  pub truncate_after-SameFiles :
      (file : Bytes) (w : WriterState)
      → find_file s.segment_id s.segments ≡ some file
      → s.offset ≡ length file
      → Broken s file w
      → Ensures
          (λ (u : Unit {0}) t. SameFiles t.segments s.segments × Same s t)
          (Stopped env s)
          (truncate_after env s.segment_id s.offset w.segment_id w).0
          (truncate_after env s.segment_id s.offset w.segment_id w).1
  unfolding truncate_after
  truncate_after-SameFiles file w old end (same, g) =
      io-fails-then R Q env opened w (λ f. (same, f))
        (found-then R Q (find_file s.segment_id w.segments) (file ++ g.extra) cut
          (record w { calls = w.calls + 1 }) g.grown
          (io-fails-then R Q env
            (set_file s.segment_id (set_len s.offset (file ++ g.extra)) >> stale)
            (record w { calls = w.calls + 1 }) (λ f. (same, f))
            (io-fails-then R Q env
              (remove_stale env (w.segment_id - s.segment_id) (s.segment_id + 1) >> io env)
              (record w {
                segments = put_file s.segment_id (set_len s.offset (file ++ g.extra)) w.segments;
                calls = (w.calls + 1) + 1;
              })
              (λ f. (same, f))
              (bind-Ensures R Q R
                (remove_stale env (w.segment_id - s.segment_id) (s.segment_id + 1)) (λ u. io env) _
                (remove_stale-Cleaned (w.segment_id - s.segment_id) (s.segment_id + 1) _
                  (omega arith) (kept, gone, same))
                (λ u t p. io_last env R Q t p (λ f. (p.1, f)))))))
    where
      Q : WriterState → Type 0
      Q = Stopped env s

      R : Unit {0} → WriterState → Type 0
      R u t = SameFiles t.segments s.segments × Same s t

      stale : Exec (Unit {0})
      stale =
          io env >> (remove_stale env (w.segment_id - s.segment_id) (s.segment_id + 1) >> io env)

      cut : Bytes → Exec (Unit {0})
      cut f = io env >> (set_file s.segment_id (set_len s.offset f) >> stale)

      opened : Exec (Unit {0})
      opened w1 = found (find_file s.segment_id w1.segments) cut w1

      kept :
          (i : ℕ)
          → i < s.segment_id + 1
          → find_file i (put_file s.segment_id (set_len s.offset (file ++ g.extra)) w.segments)
            ≡ find_file i s.segments
      kept i h = elim (Bool-cases (s.segment_id == i)) [
        | inl e ↦
            rw
              (
                find_file-put_file s.segment_id i (set_len s.offset (file ++ g.extra)) w.segments,
                e,
                end,
                set_len-append file g.extra,
              )
              (sym old ∙ ap (λ k. find_file k s.segments) (==_eq s.segment_id i e))
        | inr e ↦
            rw
              (find_file-put_file s.segment_id i (set_len s.offset (file ++ g.extra)) w.segments, e)
              (g.below i (ground arith))
      ]

      gone :
          (i : ℕ)
          → (s.segment_id + 1) + (w.segment_id - s.segment_id) ≤ i
          → find_file i (put_file s.segment_id (set_len s.offset (file ++ g.extra)) w.segments)
            ≡ none
      gone i h =
          let later : s.segment_id < i = omega arith in
          let e : (s.segment_id == i) ≡ false = ground arith in
          rw (find_file-put_file s.segment_id i (set_len s.offset (file ++ g.extra)) w.segments, e)
            (g.above i (omega (arith, g.first_le)))
