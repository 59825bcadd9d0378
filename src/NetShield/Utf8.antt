-- ===== src/NetShield/Utf8.antt =====
-- `std::str::from_utf8` and the ASCII case folding of `str`, on texts as lists of bytes.
use holy_blocker.Shared.{
  ℕ, zero, suc, ◌+◌, Bool, true, false, ◌&&◌, Option, none, some, [], ◌∷◌, ◌≡◌, refl, Bytes, ltb,
  leb, ◌==◌, if◌then◌else◌, map,
}

-- What the next byte of a character may be, and how many continuation bytes are to come.
pub record Pending : Type 0 where
  pub low : ℕ
  pub high : ℕ
  pub left : ℕ

abbrev pub between_chars : Pending
between_chars = record { low = 0; high = 0; left = 0 }

abbrev pending : ℕ → ℕ → ℕ → Option Pending
pending low high left = some (record { low = low; high = high; left = left })

-- The lead bytes of the well-formed sequences of the Unicode standard's table 3-7.
lead_byte : ℕ → Option Pending
lead_byte b =
    if ltb b 0x80
    then some between_chars
    else if ltb b 0xc2
    then none
    else if ltb b 0xe0
    then pending 0x80 0xbf 1
    else if b == 0xe0
    then pending 0xa0 0xbf 2
    else if b == 0xed
    then pending 0x80 0x9f 2
    else if ltb b 0xf0
    then pending 0x80 0xbf 2
    else if b == 0xf0
    then pending 0x90 0xbf 3
    else if ltb b 0xf4
    then pending 0x80 0xbf 3
    else if b == 0xf4
    then pending 0x80 0x8f 3
    else none

continuation_byte : Pending → ℕ → ℕ → Option Pending
continuation_byte p left b =
    if leb p.low b && leb b p.high
    then if left == 0 then some between_chars else pending 0x80 0xbf left
    else none

next_byte : ℕ → Pending → ℕ → Option Pending
next_byte zero p b = lead_byte b
next_byte (suc left) p b = continuation_byte p left b

utf8_from : Pending → Bytes → Bool
unfolding next_byte lead_byte continuation_byte
utf8_from p [] = p.left == 0
utf8_from p (b ∷ bs) = elim (next_byte p.left p b) [ none ↦ false | some q ↦ utf8_from q bs ]

unfoldable pub is_utf8 : Bytes → Bool
unfolding utf8_from
is_utf8 = utf8_from between_chars

unfoldable pub from_utf8 : Bytes → Option Bytes
from_utf8 bytes = if is_utf8 bytes then some bytes else none

-- `u8::to_ascii_lowercase`
unfoldable pub lower : ℕ → ℕ
lower b = if leb b'A' b && leb b b'Z' then b + 32 else b

unfoldable pub to_ascii_lowercase : Bytes → Bytes
to_ascii_lowercase = map lower

euro : is_utf8 (0xe2 ∷ 0x82 ∷ 0xac ∷ []) ≡ true
unfolding is_utf8
euro = refl

surrogate : is_utf8 (0xed ∷ 0xa0 ∷ 0x80 ∷ []) ≡ false
unfolding is_utf8
surrogate = refl
