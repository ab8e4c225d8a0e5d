-- ===== src/Crypto/KnownPeers/Label.antt =====
-- core/crypto/src/known_peers.rs: labels of at most 120 bytes.
use lowband.Prelude.{
  ℕ, zero, suc, ◌≤◌, ◌≡◌, refl, sym, ap, ◌∙◌, arith, true, false, List, [], ◌∷◌, ◌++◌, length, take,
  drop, leb, ◌==◌, inl, inr, Bool-cases, length-take, take-append-drop,
}
use lowband.Messaging.Utf8.{is_utf8}
use lowband.Messaging.Utf8.Boundary.{is_char_boundary, is_utf8-take}
use lowband.Crypto.KnownPeers.{walk_back, truncate_to_120_bytes}

true≢false : {A : Type 0} → true ≡ false → A
true≢false h = absurd cc

take_whole : (s : List ℕ) → take (length s) s ≡ s
take_whole [] = refl
take_whole (b ∷ s) = rw (take_whole s) refl

-- The last boundary at or before `end`.
walk_back_last :
    (s : List ℕ) (end : ℕ)
    → (walk_back s end ≤ end)
      × (is_char_boundary s (walk_back s end) ≡ true)
      × ((k : ℕ) → k ≤ end → is_char_boundary s k ≡ true → k ≤ walk_back s end)
unfolding walk_back is_char_boundary
walk_back_last s zero = (omega arith, refl, λ k h b. h)
walk_back_last s (suc end) = elim (Bool-cases (is_char_boundary s (suc end))) [
  | inl here ↦ rw here (omega arith, here, λ k h b. h)
  | inr inner ↦
      let (within, boundary, last) = walk_back_last s end in
      rw inner (
        omega (arith, within),
        boundary,
        λ k h b.
            last k
              (elim (Bool-cases (k == suc end)) [
                | inl same ↦
                    let e : k ≡ suc end = ground (arith, same) in
                    true≢false (sym b ∙ ap (is_char_boundary s) e ∙ inner)
                | inr other ↦ ground (arith, h, other)
              ])
              b,
      )
]

length_prefix : (s : List ℕ) (n : ℕ) → n ≤ length s → length (take n s) ≡ n
length_prefix s n h = omega (arith, length-take n s, h)

long_label :
    (s : List ℕ) → leb (length s) 120 ≡ false → truncate_to_120_bytes s ≡ take (walk_back s 120) s
unfolding truncate_to_120_bytes
long_label s h = rw h refl

short_label : (s : List ℕ) → leb (length s) 120 ≡ true → truncate_to_120_bytes s ≡ s
unfolding truncate_to_120_bytes
short_label s h = rw h refl

-- A label that is a UTF-8 string is cut to its longest prefix that is UTF-8 and has at most 120 bytes:
-- the result is UTF-8, it has at most 120 bytes, it is a prefix of the label, and no prefix of the
-- label, of `k` bytes, that is UTF-8 and fits is longer.
truncate_to_120_bytes_longest :
    (s : List ℕ) (k : ℕ)
    → is_utf8 s ≡ true
    → k ≤ 120
    → k ≤ length s
    → is_utf8 (take k s) ≡ true
    → let cut = truncate_to_120_bytes s in
      (is_utf8 cut ≡ true)
      × (length cut ≤ 120)
      × (cut ++ drop (length cut) s ≡ s)
      × (k ≤ length cut)
truncate_to_120_bytes_longest s k h fits within good = elim (Bool-cases (leb (length s) 120)) [
  | inl short ↦ rw (short_label s short) (
    h,
    ground (arith, short),
    ap (λ l. l ++ drop (length s) s) (sym (take_whole s)) ∙ take-append-drop (length s) s,
    within,
  )
  | inr long ↦
      let cut = walk_back s 120 in
      let (low, boundary, last) = walk_back_last s 120 in
      let inside : cut ≤ length s = ground (arith, long, low) in
      let size = length_prefix s cut inside in
      let reached = last k fits (sym (is_utf8-take s k h within) ∙ good) in
      rw (long_label s long) (
        is_utf8-take s cut h inside ∙ boundary,
        omega (arith, size, low),
        ap (λ n. take cut s ++ drop n s) size ∙ take-append-drop cut s,
        omega (arith, size, reached),
      )
]
