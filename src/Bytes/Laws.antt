-- ===== src/Bytes/Laws.antt =====
-- Words and byte strings: lengths, round trips, and reading what was appended.
use ingest4x.Prelude.{
  ℕ, zero, suc, ◌+◌, ◌*◌, ◌/◌, ◌%◌, ◌^◌, ◌<◌, ◌≡◌, refl, [], ◌∷◌, ◌++◌, none, some, length,
  length-append, take-append, drop-append, arith, true, ◌↔◌,
}
use ingest4x.Bytes.{Bytes, be_bytes, from_be_loop, from_be, read_exact, bytes_eq}
use native.Mathlib.Nat.{pow-suc}

pub length-be_bytes : (w n : ℕ) → length (be_bytes w n) ≡ w
unfolding be_bytes
length-be_bytes zero n = refl
length-be_bytes (suc w) n =
    omega (arith, length-append (be_bytes w (n / 256)) (n % 256 ∷ []), length-be_bytes w (n / 256))

from_be_loop-append :
    (acc : ℕ) (xs : Bytes) (b : ℕ) → from_be_loop acc (xs ++ b ∷ []) ≡ from_be_loop acc xs * 256 + b
unfolding from_be_loop
from_be_loop-append acc [] b = refl
from_be_loop-append acc (x ∷ xs) b = from_be_loop-append (acc * 256 + x) xs b

-- A word that fits its width is read back.
pub from_be-be_bytes : (w n : ℕ) → n < 256 ^ w → from_be (be_bytes w n) ≡ n
unfolding from_be be_bytes
from_be-be_bytes zero n h = omega arith
from_be-be_bytes (suc w) n h = omega (
  arith,
  from_be_loop-append 0 (be_bytes w (n / 256)) (n % 256),
  from_be-be_bytes w (n / 256) (omega (arith, pow-suc 256 w)),
)

pub read_exact-append :
    (xs rest : Bytes) (n : ℕ) → length xs ≡ n → read_exact n (xs ++ rest) ≡ some (xs, rest)
unfolding read_exact
read_exact-append xs rest n h =
    rw (← h) (ground (arith, length-append xs rest, take-append xs rest, drop-append xs rest))

pub read_exact-short : (n : ℕ) (src : Bytes) → length src < n → read_exact n src ≡ none
unfolding read_exact
read_exact-short n src h = ground arith

pub bytes_eq_refl : (bs : Bytes) → bytes_eq bs bs ≡ true
bytes_eq_refl [] = refl
bytes_eq_refl (b ∷ bs) = ground (arith, bytes_eq_refl bs)

pub bytes_eq_iff : (bs cs : Bytes) → (bytes_eq bs cs ≡ true) ↔ (bs ≡ cs)
bytes_eq_iff [] [] = ground arith
bytes_eq_iff [] (c ∷ cs) = ground arith
bytes_eq_iff (b ∷ bs) [] = ground arith
bytes_eq_iff (b ∷ bs) (c ∷ cs) = ground (arith, (bytes_eq_iff bs cs).0, (bytes_eq_iff bs cs).1)
