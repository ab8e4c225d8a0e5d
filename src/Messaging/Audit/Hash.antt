-- ===== src/Messaging/Audit/Hash.antt =====
-- core/messaging/src/audit.rs: SipHash-2-4 and the 256-bit keyed hash made of it. A `u64` is a number
-- below 2^64, a byte one below 256.
use Prim.Native.Nat.{bit_or, bit_xor}
use lowband.Prelude.{
  ℕ, zero, suc, ◌+◌, ◌-◌, ◌*◌, ◌/◌, ◌%◌, ◌^◌, List, [], ◌∷◌, ◌++◌, length, take, drop,
}
use lowband.Messaging.Bytes.{to_le_bytes, from_le_bytes}

abbrev pub wrapping_add : ℕ → ℕ → ℕ
wrapping_add a b = (a + b) % 2 ^ 64

-- For counts from 1 to 63.
abbrev pub rotate_left : ℕ → ℕ → ℕ
rotate_left v n = v * 2 ^ n % 2 ^ 64 + v / 2 ^ (64 - n)

pub record SipState : Type 0 where
  pub v0 : ℕ
  pub v1 : ℕ
  pub v2 : ℕ
  pub v3 : ℕ

unfoldable pub sipr : SipState → SipState
sipr s =
    let a0 = wrapping_add s.v0 s.v1 in
    let a1 = bit_xor (rotate_left s.v1 13) a0 in
    let b0 = rotate_left a0 32 in
    let a2 = wrapping_add s.v2 s.v3 in
    let a3 = bit_xor (rotate_left s.v3 16) a2 in
    let c0 = wrapping_add b0 a3 in
    let b3 = bit_xor (rotate_left a3 21) c0 in
    let b2 = wrapping_add a2 a1 in
    let b1 = bit_xor (rotate_left a1 17) b2 in
    record { v0 = c0; v1 = b1; v2 = rotate_left b2 32; v3 = b3 }

abbrev pub absorb : SipState → ℕ → SipState
unfolding sipr
absorb s m =
    let t = sipr (sipr (record { v0 = s.v0; v1 = s.v1; v2 = s.v2; v3 = bit_xor s.v3 m })) in
    record { v0 = bit_xor t.v0 m; v1 = t.v1; v2 = t.v2; v3 = t.v3 }

-- The state behind the first `blocks` blocks, and the bytes that are left.
unfoldable pub compress_blocks : ℕ → SipState → List ℕ → SipState × List ℕ
unfolding absorb
compress_blocks zero s msg = (s, msg)
compress_blocks (suc blocks) s msg =
    compress_blocks blocks (absorb s (from_le_bytes (take 8 msg))) (drop 8 msg)

-- The last word, from its byte `i` on.
unfoldable pub last_word : ℕ → ℕ → List ℕ → ℕ
last_word last i [] = last
last_word last i (b ∷ bs) = last_word (bit_or last (b * 2 ^ (i * 8) % 2 ^ 64)) (suc i) bs

unfoldable pub siphash24 : ℕ → ℕ → List ℕ → ℕ
unfolding compress_blocks last_word absorb
siphash24 k0 k1 msg =
    let start : SipState = record {
      v0 = bit_xor k0 0x736f6d6570736575;
      v1 = bit_xor k1 0x646f72616e646f6d;
      v2 = bit_xor k0 0x6c7967656e657261;
      v3 = bit_xor k1 0x7465646279746573;
    } in
    let (s, rest) = compress_blocks (length msg / 8) start msg in
    let t = absorb s (last_word (length msg % 2 ^ 64 * 2 ^ 56 % 2 ^ 64) 0 rest) in
    let u =
      sipr
        (sipr (sipr (sipr (record { v0 = t.v0; v1 = t.v1; v2 = bit_xor t.v2 0xff; v3 = t.v3 })))) in
    bit_xor (bit_xor (bit_xor u.v0 u.v1) u.v2) u.v3

unfoldable pub kh256 : List ℕ → List ℕ → List ℕ
unfolding siphash24
kh256 key msg =
    let k0a = from_le_bytes (take 8 key) in
    let k0b = from_le_bytes (take 8 (drop 8 key)) in
    let k1a = from_le_bytes (take 8 (drop 16 key)) in
    let k1b = from_le_bytes (take 8 (drop 24 key)) in
    let h0 = siphash24 k0a k0b msg in
    let h1 = siphash24 k1a k1b msg in
    let h2 = siphash24 (bit_xor k0a k1b) (bit_xor k0b k1a) msg in
    let h3 = siphash24 (wrapping_add k0a k1a) (wrapping_add k0b k1b) msg in
    to_le_bytes 8 h0 ++ (to_le_bytes 8 h1 ++ (to_le_bytes 8 h2 ++ to_le_bytes 8 h3))
