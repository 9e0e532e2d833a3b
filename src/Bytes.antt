-- ===== src/Bytes.antt =====
-- Byte strings: what std's `to_be_bytes`, `from_be_bytes` and `Read::read_exact` do, as
-- src/wal/mod.rs uses them. A byte slice is a list of numbers below 256.
pub mod Laws
use ingest4x.Prelude.{
  ℕ, zero, suc, ◌+◌, ◌*◌, ◌/◌, ◌%◌, ◌<◌, List, [], ◌∷◌, ◌++◌, Option, none, some, length, take,
  drop, ltb, if◌then◌else◌, Bool, true, false, ◌&&◌, ◌==◌,
}

abbrev pub Bytes : Type 0
Bytes = List ℕ

abbrev pub IsByte : ℕ → Type 0
IsByte b = b < 256

-- `to_be_bytes` of a word of `w` bytes
unfoldable pub be_bytes : ℕ → ℕ → Bytes
be_bytes zero n = []
be_bytes (suc w) n = be_bytes w (n / 256) ++ (n % 256 ∷ [])

from_be_loop : ℕ → Bytes → ℕ
from_be_loop acc [] = acc
from_be_loop acc (b ∷ bs) = from_be_loop (acc * 256 + b) bs

-- `from_be_bytes`
unfoldable pub from_be : Bytes → ℕ
unfolding from_be_loop
from_be bs = from_be_loop 0 bs

-- `read_exact` of `n` bytes: the bytes and what follows, or `none` for `UnexpectedEof`
unfoldable pub read_exact : ℕ → Bytes → Option (Bytes × Bytes)
read_exact n src = if ltb (length src) n then none else some (take n src, drop n src)

-- `[T] == [T]` on bytes
abbrev pub bytes_eq : Bytes → Bytes → Bool
bytes_eq [] [] = true
bytes_eq [] (c ∷ cs) = false
bytes_eq (b ∷ bs) [] = false
bytes_eq (b ∷ bs) (c ∷ cs) = b == c && bytes_eq bs cs

-- `slice[from..to]`
unfoldable pub slice : ℕ → ℕ → Bytes → Bytes
slice from len bs = take len (drop from bs)
