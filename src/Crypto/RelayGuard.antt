-- ===== src/Crypto/RelayGuard.antt =====
-- core/crypto/src/relay_guard.rs: datagrams that are sealed end to end before a relay carries them. The
-- AEAD of the chacha20poly1305 crate is a parameter; an `Instant` is a number of nanoseconds, and the
-- clock is an argument.
pub mod Relay
pub mod Nonces
mod Tests
use lowband.Prelude.{
  ℕ, ◌+◌, ◌*◌, ◌-◌, ◌%◌, ◌^◌, ◌≡◌, Bool, ◌||◌, Option, none, some, List, [], ◌∷◌, ◌++◌, length,
  take, drop, replicate, leb, ltb, if◌then◌else◌,
}
use lowband.Messaging.Bytes.{to_le_bytes}
use lowband.Transport.Turn.{TurnChannelDataFramer, encode}

-- `encrypt` and `decrypt` of ChaCha20-Poly1305 under a key and a nonce; the ciphertext carries its tag.
pub record Aead : Type 0 where
  pub encrypt : List ℕ → List ℕ → List ℕ → List ℕ
  pub decrypt : List ℕ → List ℕ → List ℕ → Option (List ℕ)

-- What the crate documents: under the same key and nonce a ciphertext is decrypted to its plaintext, and
-- the tag takes 16 bytes.
pub record IsAead (aead : Aead) : Type 0 where
  pub opens :
      (key nonce text : List ℕ) → aead.decrypt key nonce (aead.encrypt key nonce text) ≡ some text
  pub tag : (key nonce text : List ℕ) → length (aead.encrypt key nonce text) ≡ length text + 16

abbrev pub traffic_key_datagram_limit : ℕ
traffic_key_datagram_limit = 2 ^ 30

abbrev pub traffic_key_max_age : ℕ
traffic_key_max_age = 15 * 60 * 1_000_000_000

abbrev pub relay_guard_overhead_bytes : ℕ
relay_guard_overhead_bytes = 28

-- A `RelayPayload` is its bytes.
abbrev pub RelayPayload : Type 0
RelayPayload = List ℕ

pub record DatagramCipher : Type 0 where
  pub key : List ℕ
  pub counter : ℕ
  pub born_at : ℕ

unfoldable pub new : List ℕ → ℕ → DatagramCipher
new key now = record { key = key; counter = 0; born_at = now }

unfoldable pub needs_rekey : DatagramCipher → ℕ → Bool
needs_rekey c now =
    leb traffic_key_datagram_limit c.counter || leb traffic_key_max_age (now - c.born_at)

unfoldable pub rotate_key : DatagramCipher → List ℕ → ℕ → DatagramCipher
rotate_key c new_key now = record { key = new_key; counter = 0; born_at = now }

abbrev pub nonce_bytes : DatagramCipher → List ℕ
nonce_bytes c = replicate 4 0 ++ to_le_bytes 8 c.counter

unfoldable pub seal : Aead → DatagramCipher → List ℕ → DatagramCipher × RelayPayload
seal aead c plaintext = (
  record { key = c.key; counter = ((c.counter + 1) % 2 ^ 64); born_at = c.born_at },
  nonce_bytes c ++ aead.encrypt c.key (nonce_bytes c) plaintext,
)

unfoldable pub open_payload : Aead → DatagramCipher → RelayPayload → Option (List ℕ)
open_payload aead c payload =
    if ltb (length payload) relay_guard_overhead_bytes
    then none
    else aead.decrypt c.key (take 12 payload) (drop 12 payload)

unfoldable pub open_bytes : Aead → DatagramCipher → List ℕ → Option (List ℕ)
open_bytes aead c wire = open_payload aead c wire

pub record E2eeRelayBridge : Type 0 where
  pub framer : TurnChannelDataFramer

unfoldable pub frame_for_relay : E2eeRelayBridge → RelayPayload → Option (List ℕ)
frame_for_relay bridge payload = encode bridge.framer payload
