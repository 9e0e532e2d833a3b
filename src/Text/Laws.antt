-- ===== src/Text/Laws.antt =====
-- ASCII bytes are UTF-8; tests of the text helpers.
use ingest4x.Prelude.{◌<◌, ◌≡◌, refl, true, false, [], ◌∷◌, All, arith}
use ingest4x.Bytes.{Bytes}
use ingest4x.Text.{codes, utf8_loop, is_utf8, contains, trim}

abbrev pub IsAscii : Bytes → Type 0
IsAscii = All (λ b. b < 0x80)

ascii_loop : (bs : Bytes) → IsAscii bs → utf8_loop 0 0x80 0xbf bs ≡ true
unfolding utf8_loop
ascii_loop [] h = refl
ascii_loop (b ∷ bs) h = ground (arith, ascii_loop bs h.1)

pub IsAscii-is_utf8 : (bs : Bytes) → IsAscii bs → is_utf8 bs ≡ true
unfolding is_utf8
IsAscii-is_utf8 = ascii_loop

is_utf8_accepts : is_utf8 (0x61 ∷ 0xe3 ∷ 0x80 ∷ 0x80 ∷ 0xf0 ∷ 0x9f ∷ 0x98 ∷ 0x80 ∷ []) ≡ true
unfolding is_utf8
is_utf8_accepts = refl

is_utf8_refuses_surrogate : is_utf8 (0xed ∷ 0xa0 ∷ 0x80 ∷ []) ≡ false
unfolding is_utf8
is_utf8_refuses_surrogate = refl

contains_inside : contains (codes "crc") (codes "wal frame crc mismatch") ≡ true
unfolding contains
contains_inside = refl

trim_both : trim (0xe3 ∷ 0x80 ∷ 0x80 ∷ codes " ab c \n") ≡ codes "ab c"
unfolding trim
trim_both = refl
