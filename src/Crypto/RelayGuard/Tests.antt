-- ===== src/Crypto/RelayGuard/Tests.antt =====
-- core/crypto/src/relay_guard.rs: a cipher in the place of the AEAD that only adds a tag.
use lowband.Prelude.{
  ℕ, ◌-◌, ◌≡◌, refl, ap, ◌∙◌, arith, true, false, some, List, [], ◌∷◌, ◌++◌, length, take,
  replicate, length-append,
}
use lowband.Transport.Turn.{decode}
use lowband.Crypto.RelayGuard.{
  Aead, IsAead, DatagramCipher, new, needs_rekey, rotate_key, seal, open_bytes, frame_for_relay,
}
use lowband.Crypto.RelayGuard.Relay.{frame_for_relay-seal}
use lowband.Crypto.RelayGuard.Nonces.{seal_all, AllDistinct, seal_all-AllDistinct}

abbrev tagged : Aead
tagged = record {
  encrypt = (λ key nonce text. text ++ replicate 16 0);
  decrypt = (λ key nonce sealed. some (take (length sealed - 16) sealed));
}

take_before : (text rest : List ℕ) → take (length text) (text ++ rest) ≡ text
take_before [] rest = refl
take_before (b ∷ text) rest = ap (λ l. b ∷ l) (take_before text rest)

tagged-IsAead : IsAead tagged
tagged-IsAead = record {
  opens = (λ key nonce text.
      let size : length (text ++ replicate 16 0) - 16 ≡ length text =
        omega (arith, length-append text (replicate 16 0)) in
      ap (λ n. some (take n (text ++ replicate 16 0))) size
      ∙ ap some (take_before text (replicate 16 0)));
  tag = (λ key nonce text. length-append text (replicate 16 0));
}

abbrev sender : DatagramCipher
sender = record { key = replicate 32 66; counter = 41; born_at = 0 }

abbrev receiver : DatagramCipher
receiver = record { key = replicate 32 66; counter = 7; born_at = 5 }

frame_for_relay-seal_example :
    let payload = (seal tagged sender (1 ∷ 2 ∷ 3 ∷ [])).1 in
    (frame : List ℕ) × (frame_for_relay
        (record { framer = (record { channel_number = 0x4000 }) })
        payload
      ≡ some frame)
    × (decode frame ≡ some (0x4000, payload))
    × (open_bytes tagged receiver payload ≡ some (1 ∷ 2 ∷ 3 ∷ []))
frame_for_relay-seal_example =
    frame_for_relay-seal tagged sender receiver 0x4000 (1 ∷ 2 ∷ 3 ∷ []) tagged-IsAead refl
      (omega arith) (omega arith)

seal_all-AllDistinct_example : AllDistinct (seal_all tagged sender ((1 ∷ []) ∷ (1 ∷ []) ∷ []))
seal_all-AllDistinct_example =
    seal_all-AllDistinct tagged sender ((1 ∷ []) ∷ (1 ∷ []) ∷ []) (omega arith)

rotated : needs_rekey (rotate_key sender (replicate 32 67) 900_000_000_000) 900_000_000_001 ≡ false
unfolding needs_rekey rotate_key
rotated = refl

aged : needs_rekey (new (replicate 32 67) 0) 900_000_000_000 ≡ true
unfolding needs_rekey new
aged = refl
