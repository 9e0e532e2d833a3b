-- ===== src/Wal/Writer/Loop.antt =====
-- The loops of `flush_buffer_locked`: all buffered records are written, then all touched segments synced.
use ingest4x.Prelude.{
  ℕ, ◌+◌, ◌≡◌, sym, ◌∙◌, subst, true, Option, none, some, List, [], ◌∷◌, ◌++◌, length, append-nil,
  append_assoc, arith,
}
use ingest4x.Bytes.{Bytes}
use ingest4x.Text.{is_utf8}
use ingest4x.Result.{Result, ok, err}
use ingest4x.Wal.Record.{WalPosition, Codec, IsTyped}
use ingest4x.Wal.Frame.{serialize_frame}
use ingest4x.Wal.Log.{Segments}
use ingest4x.Wal.Files.{find_file}
use ingest4x.Wal.Writer.State.{
  WriterEnv, BufferedWalRecord, WriterState, Exec, io, pure, ◌>>◌, ◌>>=◌,
}
use ingest4x.Wal.Writer.Disk.{found, sync_segment}
use ingest4x.Wal.Writer.Flush.{
  buffer_lsn, insert_id, append_frame_locked, write_loop, sync_loop, write_and_sync,
}
use ingest4x.Wal.Writer.Ensures.{Ensures, bind-Ensures, lift-then, io_last}
use ingest4x.Wal.Writer.Grown.{Extends-refl, Extends-trans}
use ingest4x.Wal.Writer.Active.{Stands, Stands-Extends}
use ingest4x.Wal.Writer.Steps.{Broken, Sound, append_frame_locked-Sound}

abbrev pub AreTyped : List BufferedWalRecord → Type 0
AreTyped [] = Unit {0}
AreTyped (b ∷ bs) = IsTyped b.buffered_record × AreTyped bs

-- Each record stands at its position, and there are as many of them.
abbrev pub AllStand : Codec → Segments → List BufferedWalRecord → List WalPosition → Type 0
AllStand c ss [] [] = Unit {0}
AllStand c ss [] (p ∷ ps) = ⊥
AllStand c ss (b ∷ bs) [] = ⊥
AllStand c ss (b ∷ bs) (p ∷ ps) = Stands c ss b.buffered_record p × AllStand c ss bs ps

module _ (env : WriterEnv) (utf8 : is_utf8 env.node_id ≡ true) (s : WriterState)
    (file : Bytes) where
  -- What the loop leaves when it began with the positions `done`.
  abbrev Written :
      List BufferedWalRecord
      → ℕ
      → Segments
      → List WalPosition
      → List ℕ × List WalPosition
      → WriterState
      → Type 0
  Written bs next from done r t =
      Sound env s file 0 next from t
      × (ps : List WalPosition) × (r.1 ≡ done ++ ps)
      × AllStand env.codec t.segments bs ps

  write_loop-Written :
      (bs : List BufferedWalRecord) (next : ℕ) (from : Segments) (touched : List ℕ)
      (done : List WalPosition) (w : WriterState)
      → AreTyped bs
      → Sound env s file (length bs) (buffer_lsn bs next) from w
      → Ensures
          (Written bs next from done)
          (Broken s file)
          (write_loop env bs touched done w).0
          (write_loop env bs touched done w).1
  unfolding write_loop buffer_lsn
  write_loop-Written [] next from touched done w typed h = (h, [], sym (append-nil done), tt)
  write_loop-Written (b ∷ bs) next from touched done w typed (h, a, x, l) =
      lift-then R Q (serialize_frame env.codec b.buffered_record) rest w h (λ bytes e.
        bind-Ensures R Q P (append_frame_locked env bytes b.buffered_record.lsn)
          (λ p. write_loop env bs (insert_id p.segment touched) (done ++ (p ∷ []))) w
          (append_frame_locked-Sound env utf8 s file (length bs) (buffer_lsn bs next) w.segments
            b.buffered_record bytes w (h, a, Extends-refl w.segments, omega (arith, l)) (typed.0) e)
          (λ p t st.
            onward p (write_loop env bs (insert_id p.segment touched) (done ++ (p ∷ [])) t) t st (
              write_loop-Written bs next t.segments (insert_id p.segment touched) (done ++ (p ∷ []))
                t (typed.1) (st.0.0, st.0.1, Extends-refl t.segments, st.0.3))))
    where
      Q : WriterState → Type 0
      Q = Broken s file

      P : WalPosition → WriterState → Type 0
      P p t =
          Sound env s file (length bs) (buffer_lsn bs next) w.segments t
          × Stands env.codec t.segments b.buffered_record p

      R : List ℕ × List WalPosition → WriterState → Type 0
      R = Written (b ∷ bs) next from done

      rest : Bytes → Exec (List ℕ × List WalPosition)
      rest bytes = append_frame_locked env bytes b.buffered_record.lsn >>= λ p.
          write_loop env bs (insert_id p.segment touched) (done ++ (p ∷ []))

      onward :
          (p : WalPosition) (r : Result _ (List ℕ × List WalPosition) × WriterState)
          (t : WriterState)
          → P p t
          → Ensures (Written bs next t.segments (done ++ (p ∷ []))) Q r.0 r.1
          → Ensures R Q r.0 r.1
      onward p (err e, u) t st q = q
      onward p (ok a, u) t (sound, stands) (later, ps, e, all) = (
        (
          later.0,
          later.1,
          Extends-trans from w.segments u.segments x
              (Extends-trans w.segments t.segments u.segments sound.2 later.2),
          later.3,
        ),
        p ∷ ps,
        e ∙ append_assoc done (p ∷ []) ps,
        (Stands-Extends env.codec t.segments u.segments b.buffered_record p later.2 stands, all),
      )

  -- A sync changes no file.
  sync_loop-Ensures :
      (P Q : WriterState → Type 0) (is : List ℕ) (w : WriterState)
      → ((t : WriterState)
          → P t
          → P (record t { calls = t.calls + 1 }) × Q t × Q (record t { calls = t.calls + 1 }))
      → P w
      → Ensures (λ (u : Unit {0}) t. P t) Q (sync_loop env is w).0 (sync_loop env is w).1
  unfolding sync_loop sync_segment
  sync_loop-Ensures P Q [] w k p = p
  sync_loop-Ensures P Q (i ∷ is) w k p =
      bind-Ensures R Q R (sync_segment env i) (λ u. sync_loop env is) w
        (go (find_file i w.segments)) (λ u t p'. sync_loop-Ensures P Q is t k p')
    where
      R : Unit {0} → WriterState → Type 0
      R u = P

      go : (o : Option Bytes) → Ensures R Q (found o (λ f. io env) w).0 (found o (λ f. io env) w).1
      go none = (k w p).1
      go (some f) = io_last env R Q w ((k w p).0) (λ x. (k w p).2)

  -- All frames are written and stand where the positions say, or an error is left.
  pub write_and_sync-Written :
      (bs : List BufferedWalRecord) (next : ℕ) (w : WriterState)
      → AreTyped bs
      → Sound env s file (length bs) (buffer_lsn bs next) w.segments w
      → Ensures
          (λ ps t. Sound env s file 0 next w.segments t × AllStand env.codec t.segments bs ps)
          (Broken s file)
          (write_and_sync env bs w).0
          (write_and_sync env bs w).1
  unfolding write_and_sync
  write_and_sync-Written bs next w typed h =
      bind-Ensures R Q (Written bs next w.segments []) (write_loop env bs [] [])
        (λ r. sync_loop env (r.0) >> pure (r.1)) w
        (write_loop-Written bs next w.segments [] [] w typed h)
        (λ r t k.
          bind-Ensures R Q (λ (u : Unit {0}) v. R (r.1) v) (sync_loop env (r.0)) (λ u. pure (r.1)) t
            (sync_loop-Ensures (R (r.1)) Q (r.0) t (λ v m. (m, m.0.0, m.0.0)) (from_written r t k))
            (λ u v m. m))
    where
      Q : WriterState → Type 0
      Q = Broken s file

      R : List WalPosition → WriterState → Type 0
      R ps t = Sound env s file 0 next w.segments t × AllStand env.codec t.segments bs ps

      from_written :
          (r : List ℕ × List WalPosition) (t : WriterState)
          → Written bs next w.segments [] r t
          → R (r.1) t
      from_written r t (sound, ps, e, all) =
          (sound, subst (AllStand env.codec t.segments bs) (sym e) all)
