-- ===== src/Messaging/Wire/Tests.antt =====
-- core/messaging/src/wire.rs: runs of the codec.
use lowband.Prelude.{ℕ, ◌≡◌, refl, arith, true, List, [], ◌∷◌, ◌++◌}
use lowband.Messaging.Bytes.{to_le_bytes, from_le_bytes, split_at_checked}
use lowband.Messaging.Utf8.{is_utf8}
use lowband.Messaging.Wire.{
  MessageFrame, clipboard_files, ok, err, truncated, unknown_kind, too_long, bad_utf8, put_str,
  put_entries, encode, take_uint, checked_text, take_text, take_str, take_entries, take_offer,
  decode_kind, decode,
}
use lowband.Messaging.Wire.RoundTrip.{IsBounded, decode-encode}
use lowband.Messaging.Wire.Decoding.{decode-IsBounded}

-- "hé", with an accent of two bytes.
abbrev greeting : List ℕ
greeting = 104 ∷ 0xc3 ∷ 0xa9 ∷ []

abbrev offer : MessageFrame
offer = clipboard_files (record { entries = record { name = greeting; size = 70_000 } ∷ [] })

abbrev sent : List ℕ
sent = 3 ∷ 1 ∷ 0 ∷ 3 ∷ 0 ∷ 104 ∷ 0xc3 ∷ 0xa9 ∷ 112 ∷ 17 ∷ 1 ∷ 0 ∷ 0 ∷ 0 ∷ 0 ∷ 0 ∷ []

greeting_utf8 : is_utf8 greeting ≡ true
unfolding is_utf8
greeting_utf8 = refl

encode-offer : encode offer ≡ sent
unfolding encode to_le_bytes put_entries put_str
encode-offer = refl

decode_cut : decode (1 ∷ 3 ∷ 0 ∷ 104 ∷ []) ≡ err truncated
unfolding decode decode_kind take_str take_uint split_at_checked take_text from_le_bytes
decode_cut = refl

decode_long : decode (1 ∷ 1 ∷ 1 ∷ []) ≡ err too_long
unfolding decode decode_kind take_str take_uint split_at_checked take_text from_le_bytes
decode_long = refl

decode_surrogate : decode (1 ∷ 3 ∷ 0 ∷ 0xed ∷ 0xa0 ∷ 0x80 ∷ []) ≡ err bad_utf8
unfolding decode decode_kind take_str take_uint split_at_checked take_text from_le_bytes
    checked_text is_utf8
decode_surrogate = refl

decode_unknown : decode (9 ∷ []) ≡ err (unknown_kind 9)
unfolding decode decode_kind
decode_unknown = refl

decode-offer : decode sent ≡ ok offer
unfolding decode decode_kind take_str take_uint split_at_checked take_text from_le_bytes
    checked_text is_utf8 take_offer take_entries
decode-offer = refl

decode-encode_example : decode (encode offer ++ (7 ∷ [])) ≡ ok offer
decode-encode_example =
    decode-encode offer (7 ∷ []) (omega arith, (((omega arith, greeting_utf8), omega arith), tt))

decode-IsBounded_example : (rest : List ℕ) × (sent ≡ encode offer ++ rest) × IsBounded offer
decode-IsBounded_example =
    decode-IsBounded sent offer
      (
        omega arith,
        (
          omega arith,
          (
            omega arith,
            (
              omega arith,
              (
                omega arith,
                (
                  omega arith,
                  (
                    omega arith,
                    (
                      omega arith,
                      (
                        omega arith,
                        (
                          omega arith,
                          (
                            omega arith,
                            (
                              omega arith,
                              (omega arith, (omega arith, (omega arith, (omega arith, tt)))),
                            ),
                          ),
                        ),
                      ),
                    ),
                  ),
                ),
              ),
            ),
          ),
        ),
      )
      decode-offer
