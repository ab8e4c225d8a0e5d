-- ===== src/Messaging/Wire/Decoding.antt =====
-- core/messaging/src/wire.rs: whatever is accepted is within the caps and is an encoding.
use lowband.Prelude.{
  ℕ, ◌%◌, ◌^◌, ◌≤◌, ◌≡◌, sym, ap, arith, List, [], ◌∷◌, ◌++◌, append_assoc, length, ltb, ◌==◌,
  Bool-cases, inl, inr,
}
use lowband.Messaging.Bytes.{to_le_bytes, AllBytes}
use lowband.Messaging.Wire.{
  chat_max_text_bytes, clipboard_max_text_bytes, clipboard_max_files, ClipboardFileEntry,
  MessageFrame, chat, clipboard_text, clipboard_files, panic, ok, truncated, unknown_kind, too_long,
  ◌>>=◌, kind_chat, kind_clipboard_text, kind_clipboard_files, kind_panic, put_entries, encode,
  take_uint, take_str, take_entries, take_offer, decode_kind, decode,
}
use lowband.Messaging.Wire.RoundTrip.{IsBounded}
use lowband.Messaging.Wire.Taking.{
  >>=-ok, ok_injective, err≢ok, TookEntries, take_uint-ok, take_str-ok, take_entries-ok,
}

-- What a frame was decoded from: its encoding, and bytes that are not looked at.
record Decoded (buf : List ℕ) (frame : MessageFrame) : Type 0 where
  rest : List ℕ
  joined : buf ≡ encode frame ++ rest
  bounded : IsBounded frame

decode-chat :
    (rest : List ℕ) (frame : MessageFrame)
    → AllBytes rest
    → (take_str rest chat_max_text_bytes >>= λ (p : List ℕ × List ℕ). ok (chat p.0)) ≡ ok frame
    → Decoded (kind_chat ∷ rest) frame
unfolding encode
decode-chat rest frame h e =
    let ((text, tail), e1, f1) = >>=-ok _ (take_str rest chat_max_text_bytes) e in
    let took = take_str-ok rest chat_max_text_bytes text tail h e1 in
    let built : Decoded (kind_chat ∷ rest) (chat text) = record {
      rest = tail;
      joined = (ap (λ l. kind_chat ∷ l) took.joined);
      bounded = took.text;
    } in
    rw (ok_injective f1) at built

decode-clipboard_text :
    (rest : List ℕ) (frame : MessageFrame)
    → AllBytes rest
    → (take_str rest clipboard_max_text_bytes >>= λ (p : List ℕ × List ℕ). ok (clipboard_text p.0))
      ≡ ok frame
    → Decoded (kind_clipboard_text ∷ rest) frame
unfolding encode
decode-clipboard_text rest frame h e =
    let ((text, tail), e1, f1) = >>=-ok _ (take_str rest clipboard_max_text_bytes) e in
    let took = take_str-ok rest clipboard_max_text_bytes text tail h e1 in
    let built : Decoded (kind_clipboard_text ∷ rest) (clipboard_text text) = record {
      rest = tail;
      joined = (ap (λ l. kind_clipboard_text ∷ l) took.joined);
      bounded = took.text;
    } in
    rw (ok_injective f1) at built

decode-panic :
    (rest : List ℕ) (frame : MessageFrame)
    → AllBytes rest
    → (take_uint 4 rest >>= λ (p : ℕ × List ℕ). ok (panic (record { seq = p.0 }))) ≡ ok frame
    → Decoded (kind_panic ∷ rest) frame
unfolding encode
decode-panic rest frame h e =
    let ((seq, tail), e1, f1) = >>=-ok _ (take_uint 4 rest) e in
    let took = take_uint-ok 4 rest seq tail h e1 in
    let built : Decoded (kind_panic ∷ rest) (panic (record { seq = seq })) = record {
      rest = tail;
      joined = (ap (λ l. kind_panic ∷ l) took.joined);
      bounded = (omega (arith, took.bound));
    } in
    rw (ok_injective f1) at built

take_offer-ok :
    (count : ℕ) (rest : List ℕ) (frame : MessageFrame)
    → AllBytes rest
    → take_offer count rest ≡ ok frame
    → (es : List ClipboardFileEntry) × (tail : List ℕ) × TookEntries count rest es tail
      × (count ≤ clipboard_max_files)
      × (clipboard_files (record { entries = es }) ≡ frame)
unfolding take_offer
take_offer-ok count rest frame h e = elim (Bool-cases (ltb clipboard_max_files count)) [
  | inl many ↦ absurd (err≢ok {e = too_long} (rw many at e))
  | inr few ↦
      let ((es, tail), e1, f1) = >>=-ok _ (take_entries count rest) (rw few at e) in
      (es, tail, take_entries-ok count rest es tail h e1, ground (arith, few), ok_injective f1)
]

decode-clipboard_files :
    (rest : List ℕ) (frame : MessageFrame)
    → AllBytes rest
    → (take_uint 2 rest >>= λ (p : ℕ × List ℕ). take_offer p.0 p.1) ≡ ok frame
    → Decoded (kind_clipboard_files ∷ rest) frame
unfolding encode
decode-clipboard_files rest frame h e =
    let ((count, after), e1, f1) = >>=-ok _ (take_uint 2 rest) e in
    let number = take_uint-ok 2 rest count after h e1 in
    let (es, tail, took, few, value) = take_offer-ok count after frame number.bytes f1 in
    let width : length es % 2 ^ 16 ≡ count = omega (arith, number.bound, took.measured) in
    let built : Decoded (kind_clipboard_files ∷ rest) (clipboard_files (record { entries = es })) =
      record {
        rest = tail;
        joined =
            (rw (width, append_assoc (to_le_bytes 2 count) (put_entries es) tail, sym took.joined)
              (ap (λ l. kind_clipboard_files ∷ l) number.joined));
        bounded = (omega (arith, few, took.measured), took.entries);
      } in
    rw value at built

decode_kind-Decoded :
    (kind : ℕ) (rest : List ℕ) (frame : MessageFrame)
    → AllBytes rest
    → decode_kind kind rest ≡ ok frame
    → Decoded (kind ∷ rest) frame
unfolding decode_kind
decode_kind-Decoded kind rest frame h e = elim (Bool-cases (kind == kind_chat)) [
  | inl is1 ↦
      let k : kind_chat ≡ kind = ground (arith, is1) in
      rw k at (decode-chat rest frame h (rw is1 at e))
  | inr not1 ↦ elim (Bool-cases (kind == kind_clipboard_text)) [
    | inl is2 ↦
        let k : kind_clipboard_text ≡ kind = ground (arith, is2) in
        rw k at (decode-clipboard_text rest frame h (rw (not1, is2) at e))
    | inr not2 ↦ elim (Bool-cases (kind == kind_clipboard_files)) [
      | inl is3 ↦
          let k : kind_clipboard_files ≡ kind = ground (arith, is3) in
          rw k at (decode-clipboard_files rest frame h (rw (not1, not2, is3) at e))
      | inr not3 ↦ elim (Bool-cases (kind == kind_panic)) [
        | inl is4 ↦
            let k : kind_panic ≡ kind = ground (arith, is4) in
            rw k at (decode-panic rest frame h (rw (not1, not2, not3, is4) at e))
        | inr not4 ↦ absurd (err≢ok {e = unknown_kind kind} (rw (not1, not2, not3, not4) at e))
      ]
    ]
  ]
]

-- A frame is decoded only from bytes that begin with its encoding, and it is within the caps of its
-- channel: no text, offer or number beyond them is accepted, whatever the bytes are.
pub decode-IsBounded :
    (buf : List ℕ) (frame : MessageFrame)
    → AllBytes buf
    → decode buf ≡ ok frame
    → (rest : List ℕ) × (buf ≡ encode frame ++ rest) × IsBounded frame
unfolding decode
decode-IsBounded [] frame h e = absurd (err≢ok {e = truncated} e)
decode-IsBounded (kind ∷ rest) frame (_, h) e =
    let found = decode_kind-Decoded kind rest frame h e in (found.rest, found.joined, found.bounded)
