-- ===== src/Messaging/Clipboard/Tests.antt =====
-- core/messaging/src/clipboard.rs: runs on offers.
use lowband.Prelude.{ℕ, ◌^◌, ◌≡◌, refl, arith, true, false, some, List, [], ◌∷◌, bytes_eq}
use lowband.Messaging.Wire.{ClipboardFileOffer}
use lowband.Messaging.Grants.{Store, is_withdrawn, revoked}
use lowband.Messaging.Clipboard.{
  ClipboardSession, applied, refused, unsafe_file_name, sum_sizes, total_bytes, contains,
  contains_dots, starts_dot, any_control, safe_file_name, gate, check_names, apply_remote_files,
}
use lowband.Messaging.Clipboard.Chars.{scalars, trim, is_control}
use lowband.Messaging.Clipboard.Offers.{IsLive, apply_remote_files_wrapped}

abbrev granted : ClipboardSession
granted = record { grant = some (record { revocation = some 0 }) }

abbrev flags : Store
flags = false ∷ []

-- "résumé"
abbrev resume : List ℕ
resume = 114 ∷ 0xc3 ∷ 0xa9 ∷ 115 ∷ 117 ∷ 109 ∷ 0xc3 ∷ 0xa9 ∷ []

-- "a."
abbrev trailing_dot : List ℕ
trailing_dot = 97 ∷ 46 ∷ []

abbrev offer : ClipboardFileOffer
offer = record { entries = record { name = resume; size = 70_000 } ∷ [] }

-- Two files of 2 ^ 63 bytes each.
abbrev enormous : ClipboardFileOffer
enormous = record {
  entries =
      record { name = resume; size = 2 ^ 63 } ∷ record { name = trailing_dot; size = 2 ^ 63 } ∷ [];
}

scalars-resume : scalars resume ≡ 114 ∷ 0xe9 ∷ 115 ∷ 117 ∷ 109 ∷ 0xe9 ∷ []
unfolding scalars
scalars-resume = refl

apply_parent :
    apply_remote_files flags granted
      (record { entries = record { name = 46 ∷ 46 ∷ 47 ∷ 97 ∷ []; size = 1 } ∷ [] })
    ≡ refused (unsafe_file_name (46 ∷ 46 ∷ 47 ∷ 97 ∷ []))
unfolding apply_remote_files gate revoked is_withdrawn total_bytes sum_sizes check_names
    safe_file_name contains contains_dots starts_dot any_control scalars trim is_control bytes_eq
apply_parent = refl

resume_safe : safe_file_name resume ≡ true
unfolding safe_file_name contains contains_dots starts_dot any_control scalars trim is_control
    bytes_eq
resume_safe = refl

trailing_dot_safe : safe_file_name trailing_dot ≡ true
unfolding safe_file_name contains contains_dots starts_dot any_control scalars trim is_control
    bytes_eq
trailing_dot_safe = refl

granted-IsLive : IsLive flags granted
unfolding revoked is_withdrawn
granted-IsLive = (record { revocation = some 0 }, refl, refl)

apply_remote_files_wrapped_example : apply_remote_files flags granted enormous ≡ applied
apply_remote_files_wrapped_example =
    apply_remote_files_wrapped flags granted enormous 1 granted-IsLive (omega arith)
      (resume_safe, (trailing_dot_safe, tt)) (omega arith)
