-- ===== src/Messaging/Audit/Payload.antt =====
-- core/messaging/src/audit.rs: the buffer that `sign_entry` hashes determines the entry.
use lowband.Prelude.{
  ℕ, ◌%◌, ◌^◌, ◌<◌, ◌≡◌, refl, sym, ap, ◌∙◌, arith, Option, none, some, List, [], ◌∷◌, ◌++◌, length,
}
use lowband.Messaging.Bytes.{
  to_le_bytes, length-to_le_bytes, from_le_bytes, from_le_bytes-to_le_bytes,
}
use lowband.Messaging.Audit.{AuditEntry, unwrap_or_empty, identity_bytes, payload}
use lowband.Messaging.Audit.Hash.{kh256}

append_cancel {ℓ} :
    {A : Type ℓ} (a a' b b' : List A)
    → length a ≡ length a'
    → a ++ b ≡ a' ++ b'
    → (a ≡ a') × (b ≡ b')
append_cancel [] [] b b' len e = (refl, e)
append_cancel [] (x ∷ a') b b' len e = absurd (omega (arith, len))
append_cancel (x ∷ a) [] b b' len e = absurd (omega (arith, len))
append_cancel (x ∷ a) (y ∷ a') b b' len e =
    let heads : x ≡ y = cc in
    let tails : a ++ b ≡ a' ++ b' = cc in
    let (front, back) = append_cancel a a' b b' (omega (arith, len)) tails in (cc, back)

to_le_bytes_same :
    (k m n : ℕ) → m < 256 ^ k → n < 256 ^ k → to_le_bytes k m ≡ to_le_bytes k n → m ≡ n
to_le_bytes_same k m n hm hn e =
    sym (from_le_bytes-to_le_bytes k m hm) ∙ ap from_le_bytes e ∙ from_le_bytes-to_le_bytes k n hn

-- A string behind its length.
string_same :
    (s s' b b' : List ℕ)
    → length s < 2 ^ 32
    → length s' < 2 ^ 32
    → to_le_bytes 4 (length s % 2 ^ 32) ++ (s ++ b)
      ≡ to_le_bytes 4 (length s' % 2 ^ 32) ++ (s' ++ b')
    → (s ≡ s') × (b ≡ b')
string_same s s' b b' h h' e =
    let (prefixes, rest) =
      append_cancel (to_le_bytes 4 (length s % 2 ^ 32)) (to_le_bytes 4 (length s' % 2 ^ 32))
        (s ++ b) (s' ++ b') (length-to_le_bytes 4 _ ∙ sym (length-to_le_bytes 4 _)) e in
    let lengths =
      to_le_bytes_same 4 (length s % 2 ^ 32) (length s' % 2 ^ 32) (omega arith) (omega arith)
        prefixes in
    append_cancel s s' b b' (omega (arith, lengths, h, h')) rest

abbrev HasKeySize : Option (List ℕ) → Type 0
HasKeySize none = Unit {0}
HasKeySize (some k) = length k ≡ 32

identity_same :
    (k k' : Option (List ℕ)) (b b' : List ℕ)
    → HasKeySize k
    → HasKeySize k'
    → identity_bytes k ++ b ≡ identity_bytes k' ++ b'
    → (k ≡ k') × (b ≡ b')
identity_same none none b b' h h' e = (refl, cc)
identity_same none (some k') b b' h h' e = absurd cc
identity_same (some k) none b b' h h' e = absurd cc
identity_same (some k) (some k') b b' h h' e =
    let tails : k ++ b ≡ k' ++ b' = cc in
    let (keys, rest) = append_cancel k k' b b' (omega (arith, h, h')) tails in (ap some keys, rest)

-- The sizes that the types of the source promise, and strings shorter than 2^32 bytes.
pub record IsEntry (e : AuditEntry) : Type 0 where
  pub event : length e.event_type < 2 ^ 32
  pub capability : length (unwrap_or_empty e.capability) < 2 ^ 32
  pub identity : HasKeySize e.identity_key
  pub time : e.occurred_at_ms < 2 ^ 64

-- The same entry, but for the signature, and but for an absent capability in place of an empty one.
pub record SameFields (e f : AuditEntry) : Type 0 where
  pub event : e.event_type ≡ f.event_type
  pub capability : unwrap_or_empty e.capability ≡ unwrap_or_empty f.capability
  pub identity : e.identity_key ≡ f.identity_key
  pub time : e.occurred_at_ms ≡ f.occurred_at_ms

abbrev pub entry_payload : List ℕ → AuditEntry → List ℕ
entry_payload c e = payload c e.event_type e.capability e.identity_key e.occurred_at_ms

pub entry_payload_same :
    (c d : List ℕ) (e f : AuditEntry)
    → length c ≡ length d
    → IsEntry e
    → IsEntry f
    → entry_payload c e ≡ entry_payload d f
    → (c ≡ d) × SameFields e f
entry_payload_same c d e f len he hf same =
    let (chains, p1) = append_cancel c d _ _ len same in
    let (events, p2) = string_same e.event_type f.event_type _ _ he.event hf.event p1 in
    let (capabilities, p3) =
      string_same (unwrap_or_empty e.capability) (unwrap_or_empty f.capability) _ _ he.capability
        hf.capability p2 in
    let (identities, p4) =
      identity_same e.identity_key f.identity_key _ _ he.identity hf.identity p3 in
    let times =
      to_le_bytes_same 8 e.occurred_at_ms f.occurred_at_ms (omega (arith, he.time))
        (omega (arith, hf.time)) p4 in
    (
      chains,
      record { event = events; capability = capabilities; identity = identities; time = times },
    )

pub length-kh256 : (key msg : List ℕ) → length (kh256 key msg) ≡ 32
unfolding kh256 to_le_bytes
length-kh256 key msg = refl
