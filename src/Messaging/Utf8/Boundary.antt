-- ===== src/Messaging/Utf8/Boundary.antt =====
-- `str::is_char_boundary`: the prefixes of a UTF-8 string that are UTF-8.
use lowband.Prelude.{
  ℕ, zero, suc, ◌≤◌, ◌≡◌, ◌⊎◌, refl, sym, arith, Bool, true, false, ◌||◌, some, List, [], ◌∷◌,
  length, take, drop, leb, ltb, ◌==◌, if◌then◌else◌, inl, inr, Option-cases,
}
use lowband.Messaging.Utf8.{Pending, pending, lead, next_in, whole, utf8_from, is_utf8}

-- A byte that no character goes on with, or the end.
abbrev at_boundary : List ℕ → Bool
at_boundary [] = true
at_boundary (b ∷ _) = ltb b 0x80 || leb 0xc0 b

-- `s.is_char_boundary(index)`
unfoldable pub is_char_boundary : List ℕ → ℕ → Bool
is_char_boundary s index =
    if index == 0 then true else if ltb (length s) index then false else at_boundary (drop index s)

-- What is still needed of a character lies between 0x80 and 0xbf.
record IsPending (p : Pending) : Type 0 where
  low : (p.left ≡ 0) ⊎ (0x80 ≤ p.low)
  high : (p.left ≡ 0) ⊎ (p.high ≤ 0xbf)

false≢true : {A : Type 0} → false ≡ true → A
false≢true h = absurd cc

lead_low : (b : ℕ) (p : Pending) → lead b ≡ some p → (p.left ≡ 0) ⊎ (0x80 ≤ p.low)
unfolding lead pending
lead_low b p e = ground (arith, e)

lead_high : (b : ℕ) (p : Pending) → lead b ≡ some p → (p.left ≡ 0) ⊎ (p.high ≤ 0xbf)
unfolding lead pending
lead_high b p e = ground (arith, e)

lead_boundary : (b : ℕ) (p : Pending) → lead b ≡ some p → (ltb b 0x80 || leb 0xc0 b) ≡ true
unfolding lead pending
lead_boundary b p e = ground (arith, e)

next_in-IsPending : (n : ℕ) (p p' : Pending) (b : ℕ) → next_in n p b ≡ some p' → IsPending p'
unfolding next_in pending
next_in-IsPending zero p p' b e = record { low = (lead_low b p' e); high = (lead_high b p' e) }
next_in-IsPending (suc n) p p' b e = record {
  low = (ground (arith, e));
  high = (ground (arith, e));
}

inside :
    (n : ℕ) (p p' : Pending) (b : ℕ)
    → p.left ≡ n
    → IsPending p
    → next_in n p b ≡ some p'
    → whole n ≡ (ltb b 0x80 || leb 0xc0 b)
unfolding next_in pending whole
inside zero p p' b left h e = sym (lead_boundary b p' e)
inside (suc n) p p' b left h e = ground (arith, h.low, h.high, e, left)

first_byte :
    (p : Pending) (b : ℕ) (bs : List ℕ)
    → utf8_from p (b ∷ bs) ≡ true
    → (p' : Pending) × (next_in p.left p b ≡ some p') × (utf8_from p' bs ≡ true)
unfolding utf8_from
first_byte p b bs e = elim (Option-cases (next_in p.left p b)) [
  | inl gone ↦ false≢true (rw (gone, utf8_from) at e)
  | inr (p', here) ↦ (p', here, rw (here, utf8_from) at e)
]

starts_character :
    (p : Pending) (bs : List ℕ)
    → IsPending p
    → utf8_from p bs ≡ true
    → whole p.left ≡ at_boundary bs
unfolding utf8_from
starts_character p [] h e = e
starts_character p (b ∷ bs) h e =
    let (p', here, rest) = first_byte p b bs e in inside p.left p p' b refl h here

utf8_from-take :
    (p : Pending) (bs : List ℕ) (k : ℕ)
    → IsPending p
    → utf8_from p bs ≡ true
    → k ≤ length bs
    → utf8_from p (take k bs) ≡ at_boundary (drop k bs)
unfolding utf8_from
utf8_from-take p bs zero h e within = starts_character p bs h e
utf8_from-take p [] (suc k) h e within = absurd (omega (arith, within))
utf8_from-take p (b ∷ bs) (suc k) h e within =
    let (p', here, rest) = first_byte p b bs e in
    rw (here, utf8_from)
      (utf8_from-take p' bs k (next_in-IsPending p.left p p' b here) rest (omega (arith, within)))

-- An index within a UTF-8 string is a boundary if and only if the prefix before it is UTF-8.
pub is_utf8-take :
    (s : List ℕ) (index : ℕ)
    → is_utf8 s ≡ true
    → index ≤ length s
    → is_utf8 (take index s) ≡ is_char_boundary s index
unfolding is_utf8 is_char_boundary utf8_from
is_utf8-take s zero h within = refl
is_utf8-take s (suc index) h within =
    let whole_start : Pending = record { left = 0; low = 0; high = 0 } in
    let inside_s : ltb (length s) (suc index) ≡ false = ground (arith, within) in
    let later : (suc index == 0) ≡ false = ground arith in
    rw (later, inside_s)
      (utf8_from-take whole_start s (suc index) (record { low = (inl refl); high = (inl refl) }) h
        within)
