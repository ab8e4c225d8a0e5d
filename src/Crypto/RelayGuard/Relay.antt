-- ===== src/Crypto/RelayGuard/Relay.antt =====
-- core/crypto/src/relay_guard.rs with core/lbtp/src/turn_relay.rs: a datagram on its way over a relay.
use lowband.Prelude.{
  ℕ, ◌+◌, ◌^◌, ◌≤◌, ◌<◌, ◌≡◌, refl, arith, false, some, List, ◌++◌, length, take, drop, ltb,
}
use lowband.Messaging.Bytes.{to_le_bytes}
use lowband.Transport.Turn.{decode}
use lowband.Transport.Turn.Frame.{framed-decode}
use lowband.Crypto.RelayGuard.{
  Aead, IsAead, DatagramCipher, nonce_bytes, relay_guard_overhead_bytes, seal, open_payload,
  frame_for_relay, open_bytes,
}

take_nonce :
    (c : DatagramCipher) (rest : List ℕ)
    → (take 12 (nonce_bytes c ++ rest) ≡ nonce_bytes c) × (drop 12 (nonce_bytes c ++ rest) ≡ rest)
unfolding to_le_bytes
take_nonce c rest = (refl, refl)

length-seal :
    (aead : Aead) (c : DatagramCipher) (text : List ℕ)
    → IsAead aead
    → length (seal aead c text).1 ≡ length text + relay_guard_overhead_bytes
unfolding seal to_le_bytes
length-seal aead c text h = let tag = h.tag c.key (nonce_bytes c) text in omega (arith, tag)

pub seal_parts :
    (aead : Aead) (c : DatagramCipher) (text : List ℕ)
    → let payload = (seal aead c text).1 in
      (take 12 payload ≡ nonce_bytes c)
      × (drop 12 payload ≡ aead.encrypt c.key (nonce_bytes c) text)
unfolding seal
seal_parts aead c text = take_nonce c (aead.encrypt c.key (nonce_bytes c) text)

open_bytes-seal :
    (aead : Aead) (c d : DatagramCipher) (text : List ℕ)
    → IsAead aead
    → d.key ≡ c.key
    → open_bytes aead d (seal aead c text).1 ≡ some text
unfolding open_bytes open_payload
open_bytes-seal aead c d text h same =
    let size = length-seal aead c text h in
    let enough : ltb (length (seal aead c text).1) 28 ≡ false = ground (arith, size) in
    let (nonce, sealed) = seal_parts aead c text in
    rw (enough, nonce, sealed, same) (h.opens c.key (nonce_bytes c) text)

-- A datagram of at most 1172 bytes that is sealed fits the relay: the bridge of a channel frames it, the
-- frame is decoded to the channel and the sealed payload, and a cipher with the same key, whatever its
-- own counter and age, opens that to the datagram. The AEAD does what its crate documents.
pub frame_for_relay-seal :
    (aead : Aead) (c d : DatagramCipher) (channel : ℕ) (text : List ℕ)
    → IsAead aead
    → d.key ≡ c.key
    → channel < 2 ^ 16
    → length text ≤ 1172
    → let payload = (seal aead c text).1 in
      (frame : List ℕ) × (frame_for_relay
          (record { framer = (record { channel_number = channel }) })
          payload
        ≡ some frame)
      × (decode frame ≡ some (channel, payload))
      × (open_bytes aead d payload ≡ some text)
unfolding frame_for_relay
frame_for_relay-seal aead c d channel text h same small fits =
    let size = length-seal aead c text h in
    let (frame, framed, decoded) =
      framed-decode channel (seal aead c text).1 small (omega (arith, size, fits)) in
    (frame, framed, decoded, open_bytes-seal aead c d text h same)
