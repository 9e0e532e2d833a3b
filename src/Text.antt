-- ===== src/Text.antt =====
-- Rust's `String`: its UTF-8 bytes. `as_bytes` is the identity, and `from_utf8` is the test below.
pub mod Laws
use Prim.Native.Char.{code}
use Prim.Native.String
use ingest4x.Prelude.{
  ℕ, zero, suc, String, Bool, true, false, ◌&&◌, ◌||◌, not, Option, none, some, List, [], ◌∷◌, ◌++◌,
  leb, ltb, ◌==◌, ◌-◌, ◌+◌, if◌then◌else◌,
}
use ingest4x.Bytes.{Bytes, bytes_eq}
use mathlib.Core.List.{reverse}

abbrev pub Text : Type 0
Text = Bytes

-- A literal of the source. All of them are ASCII.
abbrev pub codes : String → Text
codes String.[] = []
codes (String.◌∷◌ c s) = code c ∷ codes s

abbrev within : ℕ → ℕ → ℕ → Bool
within lo hi b = leb lo b && leb b hi

-- The bytes that may follow a lead byte: how many, and the range of the first of them.
record Tail : Type 0 where
  pub more : ℕ
  pub lo : ℕ
  pub hi : ℕ
  pub good : Bool

abbrev tail : ℕ → ℕ → ℕ → Tail
tail n lo hi = record { more = n; lo = lo; hi = hi; good = true }

lead : ℕ → Tail
lead b =
    if ltb b 0x80
    then tail 0 0x80 0xbf
    else if within 0xc2 0xdf b
    then tail 1 0x80 0xbf
    else if b == 0xe0
    then tail 2 0xa0 0xbf
    else if b == 0xed
    then tail 2 0x80 0x9f
    else if within 0xe1 0xef b
    then tail 2 0x80 0xbf
    else if b == 0xf0
    then tail 3 0x90 0xbf
    else if within 0xf1 0xf3 b
    then tail 3 0x80 0xbf
    else if b == 0xf4
    then tail 3 0x80 0x8f
    else record { more = 0; lo = 0; hi = 0; good = false }

utf8_loop : ℕ → ℕ → ℕ → Bytes → Bool
unfolding lead
utf8_loop zero lo hi [] = true
utf8_loop (suc n) lo hi [] = false
utf8_loop zero lo hi (b ∷ bs) = let t = lead b in t.good && utf8_loop t.more t.lo t.hi bs
utf8_loop (suc n) lo hi (b ∷ bs) = within lo hi b && utf8_loop n 0x80 0xbf bs

-- Whether `String::from_utf8` accepts the bytes.
unfoldable pub is_utf8 : Bytes → Bool
unfolding utf8_loop
is_utf8 bs = utf8_loop 0 0x80 0xbf bs

unfoldable pub from_utf8 : Bytes → Option Text
from_utf8 bs = if is_utf8 bs then some bs else none

-- `eq` on strings
abbrev pub text_eq : Text → Text → Bool
text_eq = bytes_eq

abbrev pub starts_with : Text → Text → Bool
starts_with [] s = true
starts_with (p ∷ ps) [] = false
starts_with (p ∷ ps) (c ∷ cs) = p == c && starts_with ps cs

-- `contains`: needle first
unfoldable pub contains : Text → Text → Bool
contains needle [] = starts_with needle []
contains needle (c ∷ cs) = starts_with needle (c ∷ cs) || contains needle cs

-- `char::is_whitespace` on the scalar values that UTF-8 writes in one, two and three bytes
abbrev space_1 : ℕ → Bool
space_1 a = within 9 13 a || a == 32

abbrev space_2 : ℕ → ℕ → Bool
space_2 a b = a == 0xc2 && (b == 0x85 || b == 0xa0)

abbrev space_3 : ℕ → ℕ → ℕ → Bool
space_3 a b c =
    (a == 0xe1 && b == 0x9a && c == 0x80)
    || (a == 0xe2 && b == 0x80 && (within 0x80 0x8a c || c == 0xa8 || c == 0xa9 || c == 0xaf))
    || (a == 0xe2 && b == 0x81 && c == 0x9f)
    || (a == 0xe3 && b == 0x80 && c == 0x80)

pub trim_start : Text → Text
trim_start [] = []
trim_start (a ∷ []) = if space_1 a then [] else a ∷ []
trim_start (a ∷ b ∷ []) =
    let one = trim_start (b ∷ []) in
    if space_1 a then one else if space_2 a b then [] else a ∷ b ∷ []
trim_start (a ∷ b ∷ c ∷ rest) =
    let one = trim_start (b ∷ c ∷ rest) in
    let two = trim_start (c ∷ rest) in
    let three = trim_start rest in
    if space_1 a
    then one
    else if space_2 a b
    then two
    else if space_3 a b c
    then three
    else a ∷ b ∷ c ∷ rest

-- The same from the end, over the reversed bytes.
trim_end_reversed : Text → Text
trim_end_reversed [] = []
trim_end_reversed (a ∷ []) = if space_1 a then [] else a ∷ []
trim_end_reversed (b ∷ a ∷ []) =
    let one = trim_end_reversed (a ∷ []) in
    if space_1 b then one else if space_2 a b then [] else b ∷ a ∷ []
trim_end_reversed (c ∷ b ∷ a ∷ rest) =
    let one = trim_end_reversed (b ∷ a ∷ rest) in
    let two = trim_end_reversed (a ∷ rest) in
    let three = trim_end_reversed rest in
    if space_1 c
    then one
    else if space_2 b c
    then two
    else if space_3 a b c
    then three
    else c ∷ b ∷ a ∷ rest

unfoldable pub trim : Text → Text
unfolding trim_start trim_end_reversed
trim s = reverse (trim_end_reversed (reverse (trim_start s)))
