-- ===== src/Transport/Ice/Rank.antt =====
-- core/lbtp/src/ice_candidate.rs: the disjoint bits of a priority.
use Prim.Native.Nat.{bit_or, digits, bit_or-bitwise}
use native.Mathlib.Nat.{pow-succ'}
use lowband.Prelude.{
  ℕ, zero, suc, ◌+◌, ◌*◌, ◌/◌, ◌%◌, ◌^◌, ◌≤◌, ◌<◌, max, ◌≡◌, refl, ap, ◌∙◌, arith,
}
use lowband.Transport.Ice.{ice_priority}

abbrev or_digits : ℕ → ℕ → ℕ → ℕ
or_digits n a b = digits (λ b. b) max n a b

or_digits_fuel : (n m a b : ℕ) → a ≤ n → a ≤ m → or_digits n a b ≡ or_digits m a b
or_digits_fuel zero zero a b p q = refl
or_digits_fuel zero (suc m) zero b p q = refl
or_digits_fuel zero (suc m) (suc a) b p q = absurd (omega arith)
or_digits_fuel (suc n) zero zero b p q = refl
or_digits_fuel (suc n) zero (suc a) b p q = absurd (omega arith)
or_digits_fuel (suc n) (suc m) zero b p q = refl
or_digits_fuel (suc n) (suc m) (suc a) b p q =
    omega (arith, or_digits_fuel n m (suc a / 2) (b / 2) (omega arith) (omega arith))

zero-bit_or : (b : ℕ) → bit_or 0 b ≡ b
zero-bit_or b = bit_or-bitwise 0 b

bit_or_step : (a b : ℕ) → bit_or a b ≡ bit_or (a / 2) (b / 2) * 2 + max (a % 2) (b % 2)
bit_or_step zero b = omega (arith, zero-bit_or b, zero-bit_or (b / 2))
bit_or_step (suc a) b = omega (
  arith,
  bit_or-bitwise (suc a) b,
  bit_or-bitwise (suc a / 2) (b / 2),
  or_digits_fuel a (suc a / 2) (suc a / 2) (b / 2) (omega arith) (omega arith),
)

bit_or-zero_fuel : (n a : ℕ) → a ≤ n → bit_or a 0 ≡ a
bit_or-zero_fuel n zero h = refl
bit_or-zero_fuel zero (suc a) h = absurd (omega arith)
bit_or-zero_fuel (suc n) (suc a) h =
    omega (arith, bit_or_step (suc a) 0, bit_or-zero_fuel n (suc a / 2) (omega arith))

swap : (a p : ℕ) → a * (2 * p) ≡ 2 * (a * p)
swap a p = omega arith

-- Above `k` bits that are clear.
bit_or_disjoint : (k a b : ℕ) → b < 2 ^ k → bit_or (a * 2 ^ k) b ≡ a * 2 ^ k + b
bit_or_disjoint zero a b h =
    let none_below : b ≡ 0 = omega (arith, h) in
    rw none_below (bit_or-zero_fuel (a * 2 ^ 0) (a * 2 ^ 0) (omega arith) ∙ omega arith)
bit_or_disjoint (suc k) a b h =
    let x = a * 2 ^ k in
    let double : a * 2 ^ suc k ≡ 2 * x = ap (λ p. a * p) (pow-succ' 2 k) ∙ swap a (2 ^ k) in
    let half : 2 * x / 2 ≡ x = omega arith in
    let below : b / 2 < 2 ^ k = omega (arith, h) in
    let rest = bit_or_disjoint k a (b / 2) below in
    rw double (bit_or_step (2 * x) b ∙ rw half (rw rest (omega arith)))

-- The three fields of a priority add up.
pub ice_priority_sum :
    (type_pref local_pref : ℕ)
    → type_pref < 2 ^ 8
    → local_pref < 2 ^ 16
    → ice_priority type_pref local_pref ≡ type_pref * 2 ^ 24 + local_pref * 2 ^ 8 + 255
unfolding ice_priority
ice_priority_sum t l ht hl =
    let high : t * 2 ^ 24 % 2 ^ 32 ≡ t * 2 ^ 24 = omega (arith, ht) in
    let low : l * 2 ^ 8 % 2 ^ 32 ≡ l * 2 ^ 8 = omega (arith, hl) in
    let upper : t * 2 ^ 24 + l * 2 ^ 8 ≡ (t * 2 ^ 16 + l) * 2 ^ 8 = omega arith in
    let first = bit_or_disjoint 24 t (l * 2 ^ 8) (omega (arith, hl)) in
    rw (high, low, first, upper) (bit_or_disjoint 8 (t * 2 ^ 16 + l) 255 (omega arith))
