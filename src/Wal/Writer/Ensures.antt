-- ===== src/Wal/Writer/Ensures.antt =====
-- What an action of the writer leaves, by its result, and the rule for a chain of actions.
use ingest4x.Prelude.{ℕ, ◌+◌, ◌≡◌, refl, sym, subst, Option, none, some}
use ingest4x.Bytes.{Bytes}
use ingest4x.Result.{Result, ok, err, IoError}
use ingest4x.Wal.Writer.State.{
  WriterEnv, WriterState, Exec, continue, answered, lift, ◌>>=◌, ◌>>◌, io,
}
use ingest4x.Wal.Writer.Disk.{found}

-- `P` of the value and the state on success, `Q` of the state on an error.
abbrev pub Ensures :
    {A : Type 0}
    → (A → WriterState → Type 0)
    → (WriterState → Type 0)
    → Result IoError A
    → WriterState
    → Type 0
Ensures P Q (ok a) w = P a w
Ensures P Q (err e) w = Q w

-- The last call of the operating system failed.
abbrev pub LastFailed : WriterEnv → WriterState → Type 0
LastFailed env t = (n : ℕ) × (e : IoError) × (t.calls ≡ n + 1) × (env.io_error n ≡ some e)

module _ {B : Type 0} (R : B → WriterState → Type 0) (Q : WriterState → Type 0) where
  -- A chain by its first action.
  pub bind-Ensures :
      {A : Type 0} (P : A → WriterState → Type 0) (m : Exec A) (f : A → Exec B) (w : WriterState)
      → Ensures P Q (m w).0 (m w).1
      → ((a : A) (t : WriterState) → P a t → Ensures R Q (f a t).0 (f a t).1)
      → Ensures R Q ((m >>= f) w).0 ((m >>= f) w).1
  bind-Ensures {A} P m f w h k = go (m w) h
    where
      go :
          (r : Result IoError A × WriterState)
          → Ensures P Q r.0 r.1
          → Ensures R Q (continue r.0 f r.1).0 (continue r.0 f r.1).1
      go (ok a, t) p = k a t p
      go (err e, t) q = q

  -- A chain that begins with a call of the operating system, which may fail.
  pub io-fails-then :
      (env : WriterEnv) (k : Exec B) (w : WriterState)
      → (LastFailed env (record w { calls = w.calls + 1 }) → Q (record w { calls = w.calls + 1 }))
      → Ensures R Q
          (k (record w { calls = w.calls + 1 })).0
          (k (record w { calls = w.calls + 1 })).1
      → Ensures R Q ((io env >> k) w).0 ((io env >> k) w).1
  unfolding io
  io-fails-then env k w q h = go (env.io_error w.calls) refl
    where
      go :
          (o : Option IoError)
          → env.io_error w.calls ≡ o
          → Ensures R Q
              (continue (answered o) (λ u. k) (record w { calls = w.calls + 1 })).0
              (continue (answered o) (λ u. k) (record w { calls = w.calls + 1 })).1
      go none x = h
      go (some e) x = q (w.calls, e, refl, x)

  pub io-then :
      (env : WriterEnv) (k : Exec B) (w : WriterState)
      → Q (record w { calls = w.calls + 1 })
      → Ensures R Q
          (k (record w { calls = w.calls + 1 })).0
          (k (record w { calls = w.calls + 1 })).1
      → Ensures R Q ((io env >> k) w).0 ((io env >> k) w).1
  io-then env k w q h = io-fails-then env k w (λ f. q) h

  pub lift-then :
      {A : Type 0} (r : Result IoError A) (f : A → Exec B) (w : WriterState)
      → Q w
      → ((a : A) → r ≡ ok a → Ensures R Q (f a w).0 (f a w).1)
      → Ensures R Q ((lift r >>= f) w).0 ((lift r >>= f) w).1
  lift-then (ok a) f w q k = k a refl
  lift-then (err e) f w q k = q

  pub found-then :
      (o : Option Bytes) (f : Bytes) (k : Bytes → Exec B) (w : WriterState)
      → o ≡ some f
      → Ensures R Q (k f w).0 (k f w).1
      → Ensures R Q (found o k w).0 (found o k w).1
  found-then o f k w e h =
      subst (λ (x : Option Bytes). Ensures R Q (found x k w).0 (found x k w).1) (sym e) h

-- The last call of a chain.
pub io_last :
    (env : WriterEnv) (P : Unit {0} → WriterState → Type 0) (Q : WriterState → Type 0)
    (w : WriterState)
    → P tt (record w { calls = w.calls + 1 })
    → (LastFailed env (record w { calls = w.calls + 1 }) → Q (record w { calls = w.calls + 1 }))
    → Ensures P Q (io env w).0 (io env w).1
unfolding io
io_last env P Q w p q = go (env.io_error w.calls) refl
  where
    go :
        (o : Option IoError)
        → env.io_error w.calls ≡ o
        → Ensures P Q (answered o) (record w { calls = w.calls + 1 })
    go none x = p
    go (some e) x = q (w.calls, e, refl, x)
