-- ===== src/Messaging/Clipboard.antt =====
-- core/messaging/src/clipboard.rs: what a remote peer may put on the clipboard. Texts and names are
-- their bytes; the flags of withdrawn consent are those of Messaging.Grants.
mod Chars
pub mod Offers
mod Tests
use lowband.Prelude.{
  ℕ, ◌+◌, ◌*◌, ◌%◌, ◌^◌, Bool, true, false, not, ◌&&◌, ◌||◌, Option, none, some, List, [], ◌∷◌,
  length, ltb, leb, ◌==◌, if◌then◌else◌, bytes_eq,
}
use lowband.Messaging.Wire.{
  clipboard_max_text_bytes, clipboard_max_files, ClipboardFileEntry, ClipboardFileOffer,
}
use lowband.Messaging.Grants.{Store, Handle, revoked}
use lowband.Messaging.Clipboard.Chars.{scalars, trim, is_control}

abbrev pub clipboard_max_file_bytes : ℕ
clipboard_max_file_bytes = 512 * 1_024 * 1_024

pub record ClipboardGrant : Type 0 where
  pub revocation : Option Handle

pub record ClipboardSession : Type 0 where
  pub grant : Option ClipboardGrant

pub data ClipboardError : Type 0 where
  no_active_grant : ClipboardError
  text_too_long : ℕ → ClipboardError
  consent_withdrawn : ClipboardError
  too_many_files : ℕ → ClipboardError
  files_too_large : ℕ → ClipboardError
  unsafe_file_name : List ℕ → ClipboardError

-- `Result<(), ClipboardError>`
pub data Answer : Type 0 where
  applied : Answer
  refused : ClipboardError → Answer

-- `sum()` of u64, which wraps.
unfoldable pub sum_sizes : List ClipboardFileEntry → ℕ
sum_sizes [] = 0
sum_sizes (e ∷ es) = (e.size + sum_sizes es) % 2 ^ 64

unfoldable pub total_bytes : ClipboardFileOffer → ℕ
total_bytes offer = sum_sizes offer.entries

-- `contains` of one byte.
unfoldable pub contains : ℕ → List ℕ → Bool
contains b [] = false
contains b (c ∷ cs) = (c == b) || contains b cs

unfoldable starts_dot : List ℕ → Bool
starts_dot [] = false
starts_dot (c ∷ cs) = c == 46

-- `contains("..")`
unfoldable pub contains_dots : List ℕ → Bool
unfolding starts_dot
contains_dots [] = false
contains_dots (c ∷ cs) = ((c == 46) && starts_dot cs) || contains_dots cs

unfoldable pub any_control : List ℕ → Bool
any_control [] = false
any_control (c ∷ cs) = is_control c || any_control cs

unfoldable pub safe_file_name : List ℕ → Bool
safe_file_name name =
    not (length name == 0)
    && leb (length name) 255
    && not (bytes_eq name (46 ∷ []))
    && not (bytes_eq name (46 ∷ 46 ∷ []))
    && not (contains 47 name)
    && not (contains 92 name)
    && not (contains 0 name)
    && not (contains_dots name)
    && bytes_eq (trim (scalars name)) (scalars name)
    && not (any_control (scalars name))

-- The grant/consent gate of both paths.
unfoldable pub gate : Store → ClipboardSession → Answer
gate store session = elim session.grant [
  | none ↦ refused no_active_grant
  | some g ↦ (if revoked store g.revocation then refused consent_withdrawn else applied)
]

abbrev pub set_grant : ClipboardSession → Option ClipboardGrant → ClipboardSession
set_grant session grant = record session { grant = grant }

unfoldable pub is_granted : Store → ClipboardSession → Bool
is_granted store session = elim session.grant [
  | none ↦ false
  | some g ↦ not (revoked store g.revocation)
]

-- `?` on the gate.
abbrev pub after_gate : Answer → Answer → Answer
after_gate (refused e) rest = refused e
after_gate applied rest = rest

unfoldable pub apply_remote : Store → ClipboardSession → List ℕ → Answer
apply_remote store session text = after_gate (gate store session) (
    if ltb clipboard_max_text_bytes (length text)
    then refused (text_too_long (length text))
    else applied)

-- `for entry in &offer.entries`
unfoldable pub check_names : List ClipboardFileEntry → Answer
check_names [] = applied
check_names (e ∷ es) =
    if not (safe_file_name e.name) then refused (unsafe_file_name e.name) else check_names es

unfoldable pub apply_remote_files : Store → ClipboardSession → ClipboardFileOffer → Answer
apply_remote_files store session offer = after_gate (gate store session) (
    if ltb clipboard_max_files (length offer.entries)
    then refused (too_many_files (length offer.entries))
    else if ltb clipboard_max_file_bytes (total_bytes offer)
    then refused (files_too_large (total_bytes offer))
    else check_names offer.entries)
