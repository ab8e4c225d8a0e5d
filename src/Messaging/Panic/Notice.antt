-- ===== src/Messaging/Panic/Notice.antt =====
-- core/messaging/src/panic_key.rs: the wire form of a panic notice.
use lowband.Prelude.{
  ℕ, ◌≡◌, ◌<◌, ◌^◌, refl, ap, arith, not, ◌||◌, ◌↔◌, none, some, List, [], ◌∷◌, length, Bool-cases,
  inl, inr, ◌==◌,
}
use lowband.Messaging.Bytes.{
  to_le_bytes, from_le_bytes, AllBytes, length-to_le_bytes, from_le_bytes-to_le_bytes,
  to_le_bytes-from_le_bytes,
}
use lowband.Messaging.Wire.{PanicNotice}
use lowband.Messaging.Panic.{panic_notice_tag, panic_notice_len, encode, decode}

some_injective {ℓ} : {A : Type ℓ} {a b : A} → some a ≡ some b → a ≡ b
some_injective h = cc

none≢some {ℓ} : {A : Type ℓ} {a : A} → none ≡ some a → ⊥
none≢some h = cc

decode-encode_lem :
    (seq : ℕ) → seq < 2 ^ 32 → decode (encode (record { seq = seq })) ≡ some (record { seq = seq })
unfolding decode encode
decode-encode_lem seq h =
    rw (length-to_le_bytes 4 seq, from_le_bytes-to_le_bytes 4 seq (omega arith))

decode-some :
    (buf : List ℕ) (notice : PanicNotice)
    → AllBytes buf
    → decode buf ≡ some notice
    → (buf ≡ encode notice) × (notice.seq < 2 ^ 32)
unfolding decode encode
decode-some [] notice h e = absurd (none≢some e)
decode-some (tag ∷ rest) notice (_, h) e =
    elim (Bool-cases
      (not (length (tag ∷ rest) == panic_notice_len) || not (tag == panic_notice_tag))) [
        | inl bad ↦ absurd (none≢some (rw bad at e))
        | inr good ↦
            let value : from_le_bytes rest ≡ notice.seq =
              ap (λ n. n.seq) (some_injective (rw good at e)) in
            let long : length rest ≡ 4 = ground (arith, good) in
            let tagged : tag ≡ panic_notice_tag = ground (arith, good) in
            let (same, bound) = to_le_bytes-from_le_bytes rest h in
            let body : to_le_bytes 4 notice.seq ≡ rest = rw (long, value) at same in
            (rw (tagged, body) refl, omega (arith, rw (long, value) at bound))
      ]

-- A buffer of bytes is decoded to a notice exactly when it is the encoding of that notice and the
-- sequence number has 32 bits: nothing longer, shorter or with another tag is taken for a notice.
decode_iff :
    (buf : List ℕ) (notice : PanicNotice)
    → AllBytes buf
    → (decode buf ≡ some notice) ↔ ((buf ≡ encode notice) × (notice.seq < 2 ^ 32))
decode_iff buf notice h = (
  decode-some buf notice h,
  λ (p : (buf ≡ encode notice) × (notice.seq < 2 ^ 32)). rw p.0 (decode-encode_lem notice.seq p.1),
)
