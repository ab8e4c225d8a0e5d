-- ===== src/Crypto/RelayGuard/Nonces.antt =====
-- core/crypto/src/relay_guard.rs: no nonce is used twice under a key.
use lowband.Prelude.{
  ℕ, ◌+◌, ◌^◌, ◌<◌, ◌≡◌, sym, ap, ◌∙◌, arith, false, List, [], ◌∷◌, ◌++◌, length, take, drop,
  replicate, bytes_eq, bytes_eq→eq, Bool-cases, inl, inr,
}
use lowband.Messaging.Bytes.{to_le_bytes, from_le_bytes, from_le_bytes-to_le_bytes}
use lowband.Crypto.RelayGuard.{Aead, DatagramCipher, RelayPayload, seal}
use lowband.Crypto.RelayGuard.Relay.{seal_parts}

-- `seal` on each datagram.
abbrev pub seal_all : Aead → DatagramCipher → List (List ℕ) → List RelayPayload
seal_all aead c [] = []
seal_all aead c (text ∷ texts) =
    let (next, payload) = seal aead c text in payload ∷ seal_all aead next texts

-- No nonce of the list, the first 12 bytes of a payload, is `nonce`.
abbrev pub Unused : List ℕ → List RelayPayload → Type 0
Unused nonce [] = Unit {0}
Unused nonce (p ∷ ps) = (bytes_eq nonce (take 12 p) ≡ false) × Unused nonce ps

abbrev pub AllDistinct : List RelayPayload → Type 0
AllDistinct [] = Unit {0}
AllDistinct (p ∷ ps) = Unused (take 12 p) ps × AllDistinct ps

at_counter : ℕ → List ℕ
at_counter n = replicate 4 0 ++ to_le_bytes 8 n

nonces_differ : (m n : ℕ) → m < n → n < 2 ^ 64 → bytes_eq (at_counter m) (at_counter n) ≡ false
unfolding at_counter
nonces_differ m n h small = elim (Bool-cases (bytes_eq (at_counter m) (at_counter n))) [
  | inr other ↦ other
  | inl same ↦
      let e : to_le_bytes 8 m ≡ to_le_bytes 8 n = ap (drop 4) (bytes_eq→eq _ _ same) in
      let equal : m ≡ n =
        sym (from_le_bytes-to_le_bytes 8 m (omega (arith, h, small)))
        ∙ ap from_le_bytes e
        ∙ from_le_bytes-to_le_bytes 8 n (omega (arith, small)) in
      absurd (omega (arith, equal, h))
]

seal-counter :
    (aead : Aead) (c : DatagramCipher) (text : List ℕ)
    → c.counter + 1 < 2 ^ 64
    → (seal aead c text).0.counter ≡ c.counter + 1
unfolding seal
seal-counter aead c text h = omega (arith, h)

-- A nonce of an earlier counter is not used.
seal_all-Unused :
    (aead : Aead) (c : DatagramCipher) (texts : List (List ℕ)) (m : ℕ)
    → m < c.counter
    → c.counter + length texts < 2 ^ 64
    → Unused (at_counter m) (seal_all aead c texts)
unfolding at_counter
seal_all-Unused aead c [] m h room = tt
seal_all-Unused aead c (text ∷ texts) m h room =
    let (nonce, sealed) = seal_parts aead c text in
    let next = seal-counter aead c text (omega (arith, room)) in
    (
      ap (bytes_eq (at_counter m)) nonce ∙ nonces_differ m c.counter h (omega (arith, room)),
      seal_all-Unused aead (seal aead c text).0 texts m (omega (arith, next, h))
          (omega (arith, next, room)),
    )

-- The nonces under which datagrams are sealed one after the other with one key are pairwise different,
-- as long as the 64-bit counter does not reach its end.
pub seal_all-AllDistinct :
    (aead : Aead) (c : DatagramCipher) (texts : List (List ℕ))
    → c.counter + length texts < 2 ^ 64
    → AllDistinct (seal_all aead c texts)
unfolding at_counter
seal_all-AllDistinct aead c [] room = tt
seal_all-AllDistinct aead c (text ∷ texts) room =
    let (nonce, sealed) = seal_parts aead c text in
    let next = seal-counter aead c text (omega (arith, room)) in
    let rest = (seal aead c text).0 in
    (
      rw nonce (
          seal_all-Unused aead rest texts c.counter (omega (arith, next))
            (omega (arith, next, room))),
      seal_all-AllDistinct aead rest texts (omega (arith, next, room)),
    )
