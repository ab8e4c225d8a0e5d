-- ===== src/Messaging/Utf8.antt =====
-- `str::from_utf8`: the bytes that are UTF-8, by the table of RFC 3629.
pub mod Boundary
use lowband.Prelude.{
  ℕ, zero, suc, Bool, true, false, ◌&&◌, Option, none, some, List, [], ◌∷◌, leb, ltb, ◌==◌,
  if◌then◌else◌,
}

-- How many bytes the character still needs, and the range of the next one.
record Pending : Type 0 where
  left : ℕ
  low : ℕ
  high : ℕ

pending : ℕ → ℕ → ℕ → Option Pending
pending left low high = some (record { left = left; low = low; high = high })

-- After the first byte of a character.
lead : ℕ → Option Pending
unfolding pending
lead b =
    if ltb b 0x80
    then pending 0 0 0
    else if ltb b 0xc2
    then none
    else if ltb b 0xe0
    then pending 1 0x80 0xbf
    else if b == 0xe0
    then pending 2 0xa0 0xbf
    else if b == 0xed
    then pending 2 0x80 0x9f
    else if ltb b 0xf0
    then pending 2 0x80 0xbf
    else if b == 0xf0
    then pending 3 0x90 0xbf
    else if ltb b 0xf4
    then pending 3 0x80 0xbf
    else if b == 0xf4
    then pending 3 0x80 0x8f
    else none

-- After one more byte.
next_in : ℕ → Pending → ℕ → Option Pending
unfolding lead
next_in zero p b = lead b
next_in (suc n) p b = if leb p.low b && leb b p.high then pending n 0x80 0xbf else none

whole : ℕ → Bool
whole zero = true
whole (suc n) = false

utf8_from : Pending → List ℕ → Bool
unfolding next_in whole
utf8_from p [] = whole p.left
utf8_from p (b ∷ bs) = elim (next_in p.left p b) [ none ↦ false | some p' ↦ utf8_from p' bs ]

unfoldable pub is_utf8 : List ℕ → Bool
unfolding utf8_from
is_utf8 = utf8_from (record { left = 0; low = 0; high = 0 })
