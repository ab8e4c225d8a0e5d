-- ===== src/Messaging/Clipboard/Offers.antt =====
-- core/messaging/src/clipboard.rs: what an offer that is applied can name.
use lowband.Prelude.{
  ℕ, ◌+◌, ◌*◌, refl, ◌%◌, ◌^◌, ◌≤◌, ◌<◌, ◌≡◌, ◌≢◌, arith, true, false, some, List, [], ◌∷◌, length,
  ltb,
}
use lowband.Messaging.Wire.{clipboard_max_files, ClipboardFileEntry, ClipboardFileOffer}
use lowband.Messaging.Grants.{Store, revoked}
use lowband.Messaging.Clipboard.{
  ClipboardGrant, ClipboardSession, applied, sum_sizes, total_bytes, safe_file_name, gate,
  check_names, apply_remote_files,
}

-- No byte of the name is `b`.
abbrev pub Lacks : ℕ → List ℕ → Type 0
Lacks b [] = Unit {0}
Lacks b (c ∷ cs) = (c ≢ b) × Lacks b cs

-- A single component of a path: not empty, at most 255 bytes, no slash, backslash or NUL, and neither
-- the directory nor its parent.
abbrev pub IsComponent : List ℕ → Type 0
IsComponent name =
    (0 < length name)
    × (length name ≤ 255)
    × Lacks 47 name
    × Lacks 92 name
    × Lacks 0 name
    × (name ≢ 46 ∷ [])
    × (name ≢ 46 ∷ 46 ∷ [])

abbrev pub AllComponents : List ClipboardFileEntry → Type 0
AllComponents [] = Unit {0}
AllComponents (e ∷ es) = IsComponent e.name × AllComponents es

-- The sum of the sizes, without the width of the machine.
abbrev pub sizes : List ClipboardFileEntry → ℕ
sizes [] = 0
sizes (e ∷ es) = e.size + sizes es

sum_sizes_mod : (es : List ClipboardFileEntry) → sum_sizes es ≡ sizes es % 2 ^ 64
unfolding sum_sizes
sum_sizes_mod [] = omega arith
sum_sizes_mod (e ∷ es) = omega (arith, sum_sizes_mod es)

-- A session whose grant is held and not withdrawn.
abbrev pub IsLive : Store → ClipboardSession → Type 0
IsLive store session =
    (g : ClipboardGrant) × (session.grant ≡ some g) × (revoked store g.revocation ≡ false)

-- The names of all entries are accepted.
abbrev pub AllSafe : List ClipboardFileEntry → Type 0
AllSafe [] = Unit {0}
AllSafe (e ∷ es) = (safe_file_name e.name ≡ true) × AllSafe es

AllSafe-check_names : (es : List ClipboardFileEntry) → AllSafe es → check_names es ≡ applied
unfolding check_names
AllSafe-check_names [] h = refl
AllSafe-check_names (e ∷ es) (safe, h) = rw safe (AllSafe-check_names es h)

-- Under a grant that is held and not withdrawn, an offer of at most 64 files with accepted names is applied
-- where its sizes add up to any multiple of 2 ^ 64.
pub apply_remote_files_wrapped :
    (store : Store) (session : ClipboardSession) (offer : ClipboardFileOffer) (k : ℕ)
    → IsLive store session
    → length offer.entries ≤ clipboard_max_files
    → AllSafe offer.entries
    → sizes offer.entries ≡ k * 2 ^ 64
    → apply_remote_files store session offer ≡ applied
unfolding apply_remote_files gate total_bytes
apply_remote_files_wrapped store session offer k (g, held, on) few safe e =
    let none_left : sum_sizes offer.entries ≡ 0 = omega (arith, sum_sizes_mod offer.entries, e) in
    let short : ltb clipboard_max_files (length offer.entries) ≡ false = ground (arith, few) in
    rw (held, on, short, none_left) (AllSafe-check_names offer.entries safe)
