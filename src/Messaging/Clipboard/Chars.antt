-- ===== src/Messaging/Clipboard/Chars.antt =====
-- The characters of a string, and the classes of them that core/messaging/src/clipboard.rs asks for:
-- `chars`, `trim` and `is_control`.
use lowband.Prelude.{
  ℕ, ◌+◌, ◌*◌, ◌%◌, Bool, ◌&&◌, ◌||◌, List, [], ◌∷◌, leb, ltb, ◌==◌, if◌then◌else◌,
}

-- One byte of UTF-8 onto the scalar values behind it: what the bytes that continue a character have
-- come to, and the weight of the next one, are taken from the back.
record Back : Type 0 where
  done : List ℕ
  tail : ℕ
  weight : ℕ

push : ℕ → Back → Back
push b k =
    if ltb b 0x80
    then record { done = b ∷ k.done; tail = 0; weight = 1 }
    else if ltb b 0xc0
    then record { done = k.done; tail = (b % 64) * k.weight + k.tail; weight = 64 * k.weight }
    else if ltb b 0xe0
    then record { done = ((b % 32) * k.weight + k.tail) ∷ k.done; tail = 0; weight = 1 }
    else if ltb b 0xf0
    then record { done = ((b % 16) * k.weight + k.tail) ∷ k.done; tail = 0; weight = 1 }
    else record { done = ((b % 8) * k.weight + k.tail) ∷ k.done; tail = 0; weight = 1 }

scan_back : List ℕ → Back
unfolding push
scan_back [] = record { done = []; tail = 0; weight = 1 }
scan_back (b ∷ bs) = push b (scan_back bs)

-- The scalar values of the characters of UTF-8 bytes.
unfoldable pub scalars : List ℕ → List ℕ
unfolding scan_back
scalars bs = (scan_back bs).done

-- The property White_Space of Unicode.
is_whitespace : ℕ → Bool
is_whitespace c =
    (leb 9 c && leb c 13)
    || (c == 32)
    || (c == 0x85)
    || (c == 0xa0)
    || (c == 0x1680)
    || (leb 0x2000 c && leb c 0x200a)
    || (c == 0x2028)
    || (c == 0x2029)
    || (c == 0x202f)
    || (c == 0x205f)
    || (c == 0x3000)

-- The general category Cc.
unfoldable pub is_control : ℕ → Bool
is_control c = ltb c 32 || (leb 127 c && leb c 159)

trim_start : List ℕ → List ℕ
unfolding is_whitespace
trim_start [] = []
trim_start (c ∷ cs) = if is_whitespace c then trim_start cs else c ∷ cs

-- A character in front of what is left of the ones behind it.
keep_end : ℕ → List ℕ → List ℕ
keep_end c [] = if is_whitespace c then [] else c ∷ []
keep_end c (d ∷ ds) = c ∷ d ∷ ds

trim_end : List ℕ → List ℕ
unfolding keep_end
trim_end [] = []
trim_end (c ∷ cs) = keep_end c (trim_end cs)

unfoldable pub trim : List ℕ → List ℕ
unfolding trim_start trim_end
trim cs = trim_end (trim_start cs)
