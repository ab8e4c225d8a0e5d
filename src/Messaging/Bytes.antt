-- ===== src/Messaging/Bytes.antt =====
-- Fixed-width little-endian numbers and prefixes of byte slices: `to_le_bytes`, `from_le_bytes` and
-- `split_at_checked` as core/messaging uses them.
use native.Mathlib.Nat.{pow-suc}
use lowband.Prelude.{
  ℕ, zero, suc, ◌+◌, ◌*◌, ◌/◌, ◌%◌, ◌^◌, ◌<◌, ◌≡◌, refl, ap, arith, Option, none, some, List, [],
  ◌∷◌, ◌++◌, length, Option-cases, inl, inr,
}

-- `n.to_le_bytes()` of a `k`-byte integer.
unfoldable pub to_le_bytes : ℕ → ℕ → List ℕ
to_le_bytes zero n = []
to_le_bytes (suc k) n = (n % 256) ∷ to_le_bytes k (n / 256)

unfoldable pub from_le_bytes : List ℕ → ℕ
from_le_bytes [] = 0
from_le_bytes (b ∷ bs) = b + 256 * from_le_bytes bs

abbrev map_cons : ℕ → Option (List ℕ × List ℕ) → Option (List ℕ × List ℕ)
map_cons b none = none
map_cons b (some (head, tail)) = some (b ∷ head, tail)

unfoldable pub split_at_checked : ℕ → List ℕ → Option (List ℕ × List ℕ)
split_at_checked zero bs = some ([], bs)
split_at_checked (suc n) [] = none
split_at_checked (suc n) (b ∷ bs) = map_cons b (split_at_checked n bs)

abbrev pub AllBytes : List ℕ → Type 0
AllBytes [] = Unit {0}
AllBytes (b ∷ bs) = (b < 256) × AllBytes bs

pub length-to_le_bytes : (k n : ℕ) → length (to_le_bytes k n) ≡ k
unfolding to_le_bytes
length-to_le_bytes zero n = refl
length-to_le_bytes (suc k) n = ap suc (length-to_le_bytes k (n / 256))

-- A prefix of the length asked for is split off.
pub split_at_checked-append :
    (head tail : List ℕ) → split_at_checked (length head) (head ++ tail) ≡ some (head, tail)
unfolding split_at_checked
split_at_checked-append [] tail = refl
split_at_checked-append (b ∷ head) tail = rw (split_at_checked-append head tail)

-- What is split off has the length asked for, and joins to the slice again.
pub split_at_checked-some :
    (n : ℕ) (bs head tail : List ℕ)
    → split_at_checked n bs ≡ some (head, tail)
    → (bs ≡ head ++ tail) × (length head ≡ n)
unfolding split_at_checked
split_at_checked-some zero bs head tail e = ground arith
split_at_checked-some (suc n) [] head tail e = cc
split_at_checked-some (suc n) (b ∷ bs) head tail e = elim (Option-cases (split_at_checked n bs)) [
  | inl none_left ↦ cc
  | inr ((h, t), split) ↦
      let (joined, measured) = split_at_checked-some n bs h t split in ground arith
]

-- A `k`-byte number is read back from its bytes.
pub from_le_bytes-to_le_bytes : (k n : ℕ) → n < 256 ^ k → from_le_bytes (to_le_bytes k n) ≡ n
unfolding to_le_bytes from_le_bytes
from_le_bytes-to_le_bytes zero n h = omega arith
from_le_bytes-to_le_bytes (suc k) n h =
    omega (arith, from_le_bytes-to_le_bytes k (n / 256) (omega arith))

-- Bytes are the encoding of the number that they are read as.
pub to_le_bytes-from_le_bytes :
    (bs : List ℕ)
    → AllBytes bs
    → (to_le_bytes (length bs) (from_le_bytes bs) ≡ bs) × (from_le_bytes bs < 256 ^ length bs)
unfolding to_le_bytes from_le_bytes
to_le_bytes-from_le_bytes [] h = (refl, omega arith)
to_le_bytes-from_le_bytes (b ∷ bs) (hb, hbs) =
    let (same, bound) = to_le_bytes-from_le_bytes bs hbs in
    let low : (b + 256 * from_le_bytes bs) % 256 ≡ b = omega arith in
    let high : (b + 256 * from_le_bytes bs) / 256 ≡ from_le_bytes bs = omega arith in
    (rw (low, high) (ap (λ l. b ∷ l) same), omega (arith, pow-suc 256 (length bs)))

pub AllBytes-append : (xs ys : List ℕ) → AllBytes (xs ++ ys) → AllBytes xs × AllBytes ys
AllBytes-append [] ys h = (tt, h)
AllBytes-append (x ∷ xs) ys (hx, h) = let (hxs, hys) = AllBytes-append xs ys h in ((hx, hxs), hys)
