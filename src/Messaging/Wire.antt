-- ===== src/Messaging/Wire.antt =====
-- core/messaging/src/wire.rs: the tagged envelope of chat, clipboard and panic messages. A text is the
-- list of its bytes.
pub mod RoundTrip
mod Taking
pub mod Decoding
mod Tests
use lowband.Prelude.{
  ℕ, zero, suc, ◌%◌, ◌^◌, ◌≤◌, ◌<◌, ◌≡◌, Bool, true, Option, none, some, List, [], ◌∷◌, ◌++◌,
  length, ltb, ◌==◌, if◌then◌else◌,
}
use lowband.Messaging.Bytes.{to_le_bytes, from_le_bytes, split_at_checked}
use lowband.Messaging.Utf8.{is_utf8}

abbrev pub chat_max_text_bytes : ℕ
chat_max_text_bytes = 256

abbrev pub clipboard_max_text_bytes : ℕ
clipboard_max_text_bytes = 4_096

abbrev pub clipboard_max_files : ℕ
clipboard_max_files = 64

abbrev pub kind_chat : ℕ
kind_chat = 1

abbrev pub kind_clipboard_text : ℕ
kind_clipboard_text = 2

abbrev pub kind_clipboard_files : ℕ
kind_clipboard_files = 3

abbrev pub kind_panic : ℕ
kind_panic = 4

pub record ClipboardFileEntry : Type 0 where
  pub name : List ℕ
  pub size : ℕ

pub record ClipboardFileOffer : Type 0 where
  pub entries : List ClipboardFileEntry

pub record PanicNotice : Type 0 where
  pub seq : ℕ

pub data MessageFrame : Type 0 where
  chat : List ℕ → MessageFrame
  clipboard_text : List ℕ → MessageFrame
  clipboard_files : ClipboardFileOffer → MessageFrame
  panic : PanicNotice → MessageFrame

pub data FrameError : Type 0 where
  truncated : FrameError
  unknown_kind : ℕ → FrameError
  too_long bad_utf8 : FrameError

-- `Result<X, FrameError>`
pub data Result {κ} (X : Type κ) : Type κ where
  err : FrameError → Result X
  ok : X → Result X

-- `?` and what follows it.
infixl 5 ◌>>=◌
abbrev pub ◌>>=◌ {ℓ κ} : {X : Type ℓ} {Y : Type κ} → Result X → (X → Result Y) → Result Y
err error >>= next = err error
ok x >>= next = next x

abbrev ok_or {ℓ} : {A : Type ℓ} → Option A → FrameError → Result A
ok_or none e = err e
ok_or (some a) e = ok a

-- The length is cut to 16 bits.
pub put_str : List ℕ → List ℕ
put_str s = to_le_bytes 2 (length s % 2 ^ 16) ++ s

pub put_entries : List ClipboardFileEntry → List ℕ
put_entries [] = []
put_entries (e ∷ es) = put_str e.name ++ (to_le_bytes 8 e.size ++ put_entries es)

pub encode : MessageFrame → List ℕ
encode (chat text) = kind_chat ∷ put_str text
encode (clipboard_text text) = kind_clipboard_text ∷ put_str text
encode (clipboard_files offer) =
    kind_clipboard_files
    ∷ (to_le_bytes 2 (length offer.entries % 2 ^ 16) ++ put_entries offer.entries)
encode (panic notice) = kind_panic ∷ to_le_bytes 4 notice.seq

-- A number of `k` bytes from the front, and what follows it: `take_u16`, `take_u32`, `take_u64`.
pub take_uint : ℕ → List ℕ → Result (ℕ × List ℕ)
take_uint k rest = do
  (head, tail) ← ok_or (split_at_checked k rest) truncated
  ok (from_le_bytes head, tail)

checked_text : List ℕ → List ℕ → Result (List ℕ × List ℕ)
checked_text head tail = if is_utf8 head then ok (head, tail) else err bad_utf8

-- The `len` bytes of a text that are next, under the cap.
take_text : ℕ → ℕ → List ℕ → Result (List ℕ × List ℕ)
take_text cap len tail =
    if ltb cap len
    then err too_long
    else (ok_or (split_at_checked len tail) truncated >>= λ (s : List ℕ × List ℕ).
        checked_text s.0 s.1)

pub take_str : List ℕ → ℕ → Result (List ℕ × List ℕ)
take_str rest cap = do (len, tail) ← take_uint 2 rest; take_text cap len tail

-- `for _ in 0..count`
pub take_entries : ℕ → List ℕ → Result (List ClipboardFileEntry × List ℕ)
take_entries zero rest = ok ([], rest)
take_entries (suc count) rest = do
  (name, rest) ← take_str rest clipboard_max_text_bytes
  (size, rest) ← take_uint 8 rest
  (entries, rest) ← take_entries count rest
  ok (record { name = name; size = size } ∷ entries, rest)

take_offer : ℕ → List ℕ → Result MessageFrame
take_offer count rest =
    if ltb clipboard_max_files count
    then err too_long
    else (take_entries count rest >>= λ (p : List ClipboardFileEntry × List ℕ).
        ok (clipboard_files (record { entries = p.0 })))

decode_kind : ℕ → List ℕ → Result MessageFrame
decode_kind kind rest =
    if kind == kind_chat
    then (take_str rest chat_max_text_bytes >>= λ (p : List ℕ × List ℕ). ok (chat p.0))
    else if kind == kind_clipboard_text
    then (take_str rest clipboard_max_text_bytes >>= λ (p : List ℕ × List ℕ).
        ok (clipboard_text p.0))
    else if kind == kind_clipboard_files
    then (take_uint 2 rest >>= λ (p : ℕ × List ℕ). take_offer p.0 p.1)
    else if kind == kind_panic
    then (take_uint 4 rest >>= λ (p : ℕ × List ℕ). ok (panic (record { seq = p.0 })))
    else err (unknown_kind kind)

pub decode : List ℕ → Result MessageFrame
decode [] = err truncated
decode (kind ∷ rest) = decode_kind kind rest
