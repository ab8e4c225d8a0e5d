-- ===== src/Transport/Turn/Frame.antt =====
-- core/lbtp/src/turn_relay.rs: the two directions of the framing.
use lowband.Prelude.{
  ℕ, suc, ◌+◌, ◌*◌, ◌/◌, ◌%◌, ◌^◌, ◌≤◌, ◌<◌, ◌≡◌, ◌≢◌, ◌↔◌, refl, sym, ap, ◌∙◌, arith, true, false,
  Option, none, some, List, [], ◌∷◌, ◌++◌, length, ltb, ◌==◌, Bool-cases, inl, inr,
}
use lowband.Messaging.Bytes.{AllBytes}
use lowband.Transport.Turn.{turn_max_payload_bytes, to_be_bytes, encode, decode}

-- The header and the payload.
abbrev message : ℕ → List ℕ → List ℕ
message c text = to_be_bytes c ++ (to_be_bytes (length text % 2 ^ 16) ++ text)

encode-message :
    (c : ℕ) (text : List ℕ)
    → length text ≤ turn_max_payload_bytes
    → encode (record { channel_number = c }) text ≡ some (message c text)
unfolding encode
encode-message c text h =
    let fits : ltb 1200 (length text) ≡ false = ground (arith, h) in rw fits refl

decode-message :
    (c : ℕ) (text : List ℕ)
    → c < 2 ^ 16
    → length text ≤ turn_max_payload_bytes
    → decode (message c text) ≡ some (c, text)
unfolding decode
decode-message c text small h =
    let channel : 256 * (c % 2 ^ 16 / 256) + c % 256 ≡ c = omega (arith, small) in
    let size : 256 * (length text % 2 ^ 16 % 2 ^ 16 / 256) + length text % 2 ^ 16 % 256
        ≡ length text =
      omega (arith, h) in
    let same : (suc (suc (suc (suc (length text)))) == 4 + length text) ≡ true = ground arith in
    rw (channel, size, same) refl

some≢none {ℓ} : {A : Type ℓ} {x : A} → none ≢ some x
some≢none h = cc

decoded_message :
    (c : ℕ) (text bytes : List ℕ)
    → AllBytes bytes
    → decode bytes ≡ some (c, text)
    → bytes ≡ message c text
unfolding decode
decoded_message c text [] b e = absurd (some≢none e)
decoded_message c text (c1 ∷ []) b e = absurd (some≢none e)
decoded_message c text (c1 ∷ c2 ∷ []) b e = absurd (some≢none e)
decoded_message c text (c1 ∷ c2 ∷ l1 ∷ []) b e = absurd (some≢none e)
decoded_message c text (c1 ∷ c2 ∷ l1 ∷ l2 ∷ rest) (b1, (b2, (b3, (b4, b)))) e =
    elim (Bool-cases (suc (suc (suc (suc (length rest)))) == 4 + (256 * l1 + l2))) [
      | inr other ↦ absurd (some≢none (rw other at e))
      | inl same ↦
          let read : ◌≡◌ {A = Option (ℕ × List ℕ)} (some (256 * c1 + c2, rest)) (some (c, text)) =
            rw same at e in
          let channel : 256 * c1 + c2 ≡ c = cc in
          let payload : rest ≡ text = cc in
          let size : length rest ≡ 256 * l1 + l2 = ground (arith, same) in
          let c_high : c % 2 ^ 16 / 256 ≡ c1 = omega (arith, channel, b1, b2) in
          let c_low : c % 256 ≡ c2 = omega (arith, channel, b1, b2) in
          let l_high : length rest % 2 ^ 16 % 2 ^ 16 / 256 ≡ l1 = omega (arith, size, b3, b4) in
          let l_low : length rest % 2 ^ 16 % 256 ≡ l2 = omega (arith, size, b3, b4) in
          rw (sym payload, c_high, c_low, l_high, l_low) refl
    ]

-- For bytes, a channel number of 16 bits and a payload that the framer takes: the framer of that
-- channel encodes the payload as exactly these bytes if and only if they are decoded to that channel
-- and that payload.
pub encode-decode_iff :
    (c : ℕ) (text bytes : List ℕ)
    → AllBytes bytes
    → c < 2 ^ 16
    → length text ≤ turn_max_payload_bytes
    → (encode (record { channel_number = c }) text ≡ some bytes) ↔ (decode bytes ≡ some (c, text))
encode-decode_iff c text bytes b small fits = (
  λ e.
      let same : some (message c text) ≡ some bytes = sym (encode-message c text fits) ∙ e in
      let framed : message c text ≡ bytes = cc in
      ap decode (sym framed) ∙ decode-message c text small fits,
  λ e. encode-message c text fits ∙ ap some (sym (decoded_message c text bytes b e)),
)

-- What the framer of a channel encodes is decoded to the channel and the payload, and a payload that it
-- takes is encoded.
pub framed-decode :
    (c : ℕ) (text : List ℕ)
    → c < 2 ^ 16
    → length text ≤ turn_max_payload_bytes
    → (bytes : List ℕ) × (encode (record { channel_number = c }) text ≡ some bytes)
      × (decode bytes ≡ some (c, text))
framed-decode c text small h =
    (message c text, encode-message c text h, decode-message c text small h)
