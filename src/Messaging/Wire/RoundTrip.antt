-- ===== src/Messaging/Wire/RoundTrip.antt =====
-- core/messaging/src/wire.rs: what is encoded within the caps is decoded to the same frame.
use lowband.Prelude.{
  ℕ, ◌%◌, ◌^◌, ◌≤◌, ◌<◌, ◌≡◌, refl, arith, true, false, some, List, [], ◌∷◌, ◌++◌, append_assoc,
  length, ltb,
}
use lowband.Messaging.Bytes.{
  to_le_bytes, split_at_checked, length-to_le_bytes, split_at_checked-append,
  from_le_bytes-to_le_bytes,
}
use lowband.Messaging.Utf8.{is_utf8}
use lowband.Messaging.Wire.{
  chat_max_text_bytes, clipboard_max_text_bytes, clipboard_max_files, ClipboardFileEntry,
  MessageFrame, chat, clipboard_text, clipboard_files, panic, ok, put_str, put_entries, encode,
  take_uint, checked_text, take_text, take_str, take_entries, take_offer, decode_kind, decode,
}

-- A `String` of at most `limit` bytes.
abbrev pub IsText : ℕ → List ℕ → Type 0
IsText limit s = (length s ≤ limit) × (is_utf8 s ≡ true)

abbrev pub AllEntries : List ClipboardFileEntry → Type 0
AllEntries [] = Unit {0}
AllEntries (e ∷ es) = (IsText clipboard_max_text_bytes e.name × (e.size < 2 ^ 64)) × AllEntries es

-- Within the caps of its channel, and its numbers within their widths.
abbrev pub IsBounded : MessageFrame → Type 0
IsBounded (chat text) = IsText chat_max_text_bytes text
IsBounded (clipboard_text text) = IsText clipboard_max_text_bytes text
IsBounded (clipboard_files offer) =
    (length offer.entries ≤ clipboard_max_files) × AllEntries offer.entries
IsBounded (panic notice) = notice.seq < 2 ^ 32

take_uint-to_le_bytes :
    (k n : ℕ) (rest : List ℕ) → n < 256 ^ k → take_uint k (to_le_bytes k n ++ rest) ≡ ok (n, rest)
unfolding take_uint
take_uint-to_le_bytes k n rest h =
    let split : split_at_checked k (to_le_bytes k n ++ rest) ≡ some (to_le_bytes k n, rest) =
      rw (length-to_le_bytes) at (split_at_checked-append (to_le_bytes k n) rest) in
    rw (split, from_le_bytes-to_le_bytes k n h)

take_str-put_str :
    (limit : ℕ) (s rest : List ℕ)
    → limit < 2 ^ 16
    → IsText limit s
    → take_str (put_str s ++ rest) limit ≡ ok (s, rest)
unfolding take_str take_text put_str checked_text
take_str-put_str limit s rest small (short, valid) =
    let e : length s % 2 ^ 16 ≡ length s = omega arith in
    let fits : ltb limit (length s) ≡ false = ground arith in
    rw (
      e,
      append_assoc (to_le_bytes 2 (length s)) s rest,
      take_uint-to_le_bytes 2 (length s) (s ++ rest) (omega arith),
      fits,
      split_at_checked-append s rest,
      valid,
    )

take_entries-put_entries :
    (es : List ClipboardFileEntry) (rest : List ℕ)
    → AllEntries es
    → take_entries (length es) (put_entries es ++ rest) ≡ ok (es, rest)
unfolding take_entries put_entries
take_entries-put_entries [] rest h = refl
take_entries-put_entries (e ∷ es) rest ((text, wide), h) = rw (
  append_assoc (put_str e.name) (to_le_bytes 8 e.size ++ put_entries es) rest,
  append_assoc (to_le_bytes 8 e.size) (put_entries es) rest,
  take_str-put_str clipboard_max_text_bytes e.name
      (to_le_bytes 8 e.size ++ (put_entries es ++ rest)) (omega arith) text,
  take_uint-to_le_bytes 8 e.size (put_entries es ++ rest) (omega arith),
  take_entries-put_entries es rest h,
)

take_offer-encode :
    (es : List ClipboardFileEntry) (rest : List ℕ)
    → length es ≤ clipboard_max_files
    → AllEntries es
    → take_offer (length es) (put_entries es ++ rest)
      ≡ ok (clipboard_files (record { entries = es }))
unfolding take_offer
take_offer-encode es rest few h =
    let fits : ltb clipboard_max_files (length es) ≡ false = ground arith in
    rw (fits, take_entries-put_entries es rest h)

-- A frame within the caps of its channel is decoded to itself from its encoding, whatever bytes follow.
pub decode-encode :
    (frame : MessageFrame) (rest : List ℕ)
    → IsBounded frame
    → decode (encode frame ++ rest) ≡ ok frame
unfolding decode encode decode_kind
decode-encode (chat text) rest h =
    rw (take_str-put_str chat_max_text_bytes text rest (omega arith) h)
decode-encode (clipboard_text text) rest h =
    rw (take_str-put_str clipboard_max_text_bytes text rest (omega arith) h)
decode-encode (clipboard_files offer) rest (few, h) =
    let e : length offer.entries % 2 ^ 16 ≡ length offer.entries = omega arith in
    rw (
      e,
      append_assoc (to_le_bytes 2 (length offer.entries)) (put_entries offer.entries) rest,
      take_uint-to_le_bytes 2 (length offer.entries) (put_entries offer.entries ++ rest)
          (omega arith),
      take_offer-encode offer.entries rest few h,
    )
decode-encode (panic notice) rest h = rw (take_uint-to_le_bytes 4 notice.seq rest (omega arith))
