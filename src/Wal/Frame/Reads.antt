-- ===== src/Wal/Frame/Reads.antt =====
-- Reads that may meet the end of the stream: `read_exact` and the early return of `Ok(None)`.
use ingest4x.Prelude.{
  ℕ, ◌+◌, ◌-◌, ◌<◌, ◌≤◌, ◌≡◌, refl, sym, ap, ◌∙◌, Option, none, some, ◌++◌, length, take,
  length-append, length-take, length-append, take-add-append, take-append-drop, ltb, arith, inl,
  inr, Bool-cases, ltb→lt, subst, ltb→lt,
}
use ingest4x.Bytes.{Bytes, read_exact}
use ingest4x.Bytes.Laws.{read_exact-append, read_exact-short}
use ingest4x.Result.{Result, ok, IoError}
use ingest4x.Wal.Frame.{try_read}

pub try_read-append {ℓ} :
    {A : Type ℓ} (n : ℕ) (xs rest : Bytes) (k : Bytes → Bytes → Result IoError (Option A))
    → length xs ≡ n
    → try_read n (xs ++ rest) k ≡ k xs rest
unfolding try_read
try_read-append n xs rest k h = rw (read_exact-append xs rest n h, try_read)

pub try_read-short {ℓ} :
    {A : Type ℓ} (n : ℕ) (src : Bytes) (k : Bytes → Bytes → Result IoError (Option A))
    → length src < n
    → try_read n src k ≡ ok none
unfolding try_read
try_read-short n src k h = rw (read_exact-short n src h, try_read)

try_read-take {ℓ} :
    {A : Type ℓ} (k : ℕ) (xs rest : Bytes) (f : Bytes → Bytes → Result IoError (Option A))
    → ((j : ℕ) → k ≡ length xs + j → f xs (take j rest) ≡ ok none)
    → k ≤ length (xs ++ rest)
    → try_read (length xs) (take k (xs ++ rest)) f ≡ ok none
try_read-take k xs rest f whole hk = elim (Bool-cases (ltb k (length xs))) [
  | inl short ↦
      try_read-short (length xs) _ f
        (omega (arith, length-take k (xs ++ rest) hk, ltb→lt k (length xs) short))
  | inr enough ↦
      let e : k ≡ length xs + (k - length xs) = ground arith in
      subst (λ t. try_read (length xs) (take t (xs ++ rest)) f ≡ ok none) (sym e)
        (rw take-add-append (
          try_read-append (length xs) xs (take (k - length xs) rest) f refl
          ∙ whole (k - length xs) e))
]

-- A read from a stream that was cut after `k` bytes: the part is whole, or nothing is read.
pub try_read-cut {ℓ} :
    {A : Type ℓ} (n k : ℕ) (xs rest : Bytes) (f : Bytes → Bytes → Result IoError (Option A))
    → length xs ≡ n
    → ((j : ℕ) → k ≡ n + j → f xs (take j rest) ≡ ok none)
    → k ≤ length (xs ++ rest)
    → try_read n (take k (xs ++ rest)) f ≡ ok none
try_read-cut n k xs rest f h whole hk =
    subst (λ m. try_read m (take k (xs ++ rest)) f ≡ ok none) h
      (try_read-take k xs rest f (λ j e. whole j (e ∙ ap (λ m. m + j) h)) hk)

read_exact_split :
    (n : ℕ) (src a b : Bytes) → read_exact n src ≡ some (a, b) → (src ≡ a ++ b) × (length a ≡ n)
unfolding read_exact
read_exact_split n src a b h = ground (arith, take-append-drop n src, length-take n src)

-- A read that did not meet the end: the bytes that it took, and what is left.
pub try_read_elim {ℓ κ} :
    {A : Type ℓ} {P : Type κ} (n : ℕ) (src : Bytes) (k : Bytes → Bytes → Result IoError (Option A))
    {v : A}
    → try_read n src k ≡ ok (some v)
    → ((a b : Bytes) → length src ≡ n + length b → k a b ≡ ok (some v) → P)
    → P
unfolding try_read
try_read_elim {A} {P} n src k {v} h next = go (read_exact n src) refl
  where
    go : (o : Option (Bytes × Bytes)) → read_exact n src ≡ o → P
    go none e = let bad : ok none ≡ ok (some v) = rw (e, try_read) at h in cc
    go (some (a, b)) e =
        let (p, q) = read_exact_split n src a b e in
        next a b (omega (arith, ap length p, length-append a b)) (rw (e, try_read) at h)
