-- ===== src/Messaging/Audit/Tamper.antt =====
-- core/messaging/src/audit.rs: what a second log that ends in the same chain hash says of the hash.
use lowband.Prelude.{
  ℕ, ◌==◌, ◌≤◌, ◌<◌, ◌≡◌, ◌⊎◌, refl, sym, ap, ◌∙◌, arith, true, false, List, [], ◌∷◌, length,
  Bool-cases, inl, inr, bytes_eq, bytes_eq→eq,
}
use lowband.Messaging.Audit.{
  AuditEntry, AuditLog, new, append_inner, zero_hash, advance_chain, sign_entry, expected,
  verify_loop, verify_entries,
}
use lowband.Messaging.Audit.Hash.{kh256}
use lowband.Messaging.Audit.Verify.{append_all}
use lowband.Messaging.Audit.Payload.{
  IsEntry, SameFields, entry_payload, entry_payload_same, length-kh256,
}

-- The chain hash behind entries.
abbrev pub final_chain : List ℕ → List ℕ → List AuditEntry → List ℕ
final_chain key c [] = c
final_chain key c (e ∷ es) = final_chain key (advance_chain key e.signature) es

abbrev pub AllEntries : List AuditEntry → Type 0
AllEntries [] = Unit {0}
AllEntries (e ∷ es) = IsEntry e × AllEntries es

-- Entry by entry the same fields and the same signature.
abbrev pub AllSame : List AuditEntry → List AuditEntry → Type 0
AllSame [] [] = Unit {0}
AllSame (e ∷ es) (f ∷ fs) = SameFields e f × (e.signature ≡ f.signature) × AllSame es fs
AllSame _ _ = ⊥

-- Where two lists, read from the chain hashes `c` and `d`, break the hash: two different buffers of
-- entries at the same place have one signature, two different signatures at the same place have one
-- chain hash, or the first list, while it is the longer one, comes to `d`.
pub data Broken (key : List ℕ) : List ℕ → List ℕ → List AuditEntry → List AuditEntry → Type 0 where
  payloads_collide :
      {c d : List ℕ} {e f : AuditEntry} {es fs : List AuditEntry}
      → bytes_eq (entry_payload c e) (entry_payload d f) ≡ false
      → kh256 key (entry_payload c e) ≡ kh256 key (entry_payload d f)
      → Broken key c d (e ∷ es) (f ∷ fs)
  signatures_collide :
      {c d : List ℕ} {e f : AuditEntry} {es fs : List AuditEntry}
      → bytes_eq e.signature f.signature ≡ false
      → advance_chain key e.signature ≡ advance_chain key f.signature
      → Broken key c d (e ∷ es) (f ∷ fs)
  later :
      {c d : List ℕ} {e f : AuditEntry} {es fs : List AuditEntry}
      → Broken key (advance_chain key e.signature) (advance_chain key f.signature) es fs
      → Broken key c d (e ∷ es) (f ∷ fs)
  reaches_start :
      {c d : List ℕ} {e : AuditEntry} {es fs : List AuditEntry}
      → length fs ≡ length es
      → advance_chain key e.signature ≡ d
      → Broken key c d (e ∷ es) fs
  skipped :
      {c d : List ℕ} {e : AuditEntry} {es fs : List AuditEntry}
      → length fs < length (e ∷ es)
      → Broken key (advance_chain key e.signature) d es fs
      → Broken key c d (e ∷ es) fs

false≢true : {A : Type 0} → false ≡ true → A
false≢true h = absurd cc

-- An entry that verifies carries the signature of its buffer, and the rest verifies.
verify_loop_first :
    (key c : List ℕ) (e : AuditEntry) (es : List AuditEntry)
    → verify_loop key c (e ∷ es) ≡ true
    → (e.signature ≡ kh256 key (entry_payload c e))
      × (verify_loop key (advance_chain key e.signature) es ≡ true)
unfolding verify_loop sign_entry
verify_loop_first key c e es h = elim (Bool-cases (bytes_eq e.signature (expected key c e))) [
  | inl good ↦ (bytes_eq→eq _ _ good, rw good at h)
  | inr bad ↦ false≢true (rw bad at h)
]

length-advance_chain : (key sig : List ℕ) → length (advance_chain key sig) ≡ 32
unfolding advance_chain
length-advance_chain key sig = length-kh256 _ sig

same_length :
    (key c d : List ℕ) (es fs : List AuditEntry)
    → length c ≡ length d
    → AllEntries es
    → AllEntries fs
    → length es ≡ length fs
    → verify_loop key c es ≡ true
    → verify_loop key d fs ≡ true
    → final_chain key c es ≡ final_chain key d fs
    → ((c ≡ d) × AllSame es fs) ⊎ Broken key c d es fs
same_length key c d [] [] size he hf len v w end = inl (end, tt)
same_length key c d [] (f ∷ fs) size he hf len v w end = absurd (omega (arith, len))
same_length key c d (e ∷ es) [] size he hf len v w end = absurd (omega (arith, len))
same_length key c d (e ∷ es) (f ∷ fs) size (he, hes) (hf, hfs) len v w end =
    let (signed_e, rest_e) = verify_loop_first key c e es v in
    let (signed_f, rest_f) = verify_loop_first key d f fs w in
    let sizes = length-advance_chain key e.signature ∙ sym (length-advance_chain key f.signature) in
    elim (same_length key (advance_chain key e.signature) (advance_chain key f.signature) es fs
      sizes hes hfs (omega (arith, len)) rest_e rest_f end) [
        | inr broken ↦ inr (later broken)
        | inl (chains, same) ↦ elim (Bool-cases (bytes_eq e.signature f.signature)) [
          | inr other ↦ inr (signatures_collide other chains)
          | inl equal ↦
              let signatures = bytes_eq→eq e.signature f.signature equal in
              elim (Bool-cases (bytes_eq (entry_payload c e) (entry_payload d f))) [
                | inr other ↦ inr (payloads_collide other (sym signed_e ∙ signatures ∙ signed_f))
                | inl equal_payloads ↦
                    let (starts, fields) =
                      entry_payload_same c d e f size he hf
                        (bytes_eq→eq (entry_payload c e) (entry_payload d f) equal_payloads) in
                    inl (starts, (fields, signatures, same))
              ]
        ]
      ]

longer :
    (key c d : List ℕ) (es fs : List AuditEntry)
    → length d ≡ 32
    → AllEntries es
    → AllEntries fs
    → length fs < length es
    → verify_loop key c es ≡ true
    → verify_loop key d fs ≡ true
    → final_chain key c es ≡ final_chain key d fs
    → Broken key c d es fs
longer key c d [] fs size he hf len v w end = absurd (omega (arith, len))
longer key c d (e ∷ es) fs size (he, hes) hf len v w end =
    let (signed, rest) = verify_loop_first key c e es v in
    let next = advance_chain key e.signature in
    elim (Bool-cases (length fs == length es)) [
      | inl same ↦
          let equal : length fs ≡ length es = ground (arith, same) in
          elim (same_length key next d es fs (length-advance_chain key e.signature ∙ sym size) hes
            hf (sym equal) rest w end) [
              | inl (chains, all) ↦ reaches_start equal chains
              | inr broken ↦ skipped len broken
            ]
      | inr other ↦
          skipped len (longer key next d es fs size hes hf (ground (arith, other, len)) rest w end)
    ]

append_all-final_chain :
    (log : AuditLog) (es : List AuditEntry)
    → verify_loop log.key log.chain_hash es ≡ true
    → (append_all log es).chain_hash ≡ final_chain log.key log.chain_hash es
unfolding append_inner sign_entry
append_all-final_chain log [] h = refl
append_all-final_chain log (e ∷ es) h =
    let (signed, rest) = verify_loop_first log.key log.chain_hash e es h in
    let next = append_inner log e.event_type e.capability e.identity_key e.occurred_at_ms in
    let chain : next.chain_hash ≡ advance_chain log.key e.signature =
      ap (advance_chain log.key) (sym signed) in
    append_all-final_chain next es (ap (λ c. verify_loop log.key c es) chain ∙ rest)
    ∙ ap (λ c. final_chain log.key c es) chain

new-final_chain :
    (key : List ℕ) (es : List AuditEntry)
    → verify_entries es key ≡ true
    → (append_all (new key) es).chain_hash ≡ final_chain key zero_hash es
unfolding new verify_entries
new-final_chain key es h = append_all-final_chain (new key) es h

-- Two lists of entries that both verify under a key, and behind which a log with that key has the
-- same chain hash, have the same entries: the same events, identity keys, times and signatures in the
-- same order, the capabilities up to an absent one in place of an empty one. Otherwise the two lists
-- themselves show where the keyed hash is broken: two different buffers with one signature, two
-- different signatures with one chain hash, or a signature whose chain hash is zero. The list `es` is
-- the longer one, or both have one length.
pub verify_entries-AllSame :
    (key : List ℕ) (es fs : List AuditEntry)
    → AllEntries es
    → AllEntries fs
    → length fs ≤ length es
    → verify_entries es key ≡ true
    → verify_entries fs key ≡ true
    → (append_all (new key) es).chain_hash ≡ (append_all (new key) fs).chain_hash
    → AllSame es fs ⊎ Broken key zero_hash zero_hash es fs
unfolding verify_entries
verify_entries-AllSame key es fs hes hfs len v w same =
    let end = sym (new-final_chain key es v) ∙ same ∙ new-final_chain key fs w in
    elim (Bool-cases (length fs == length es)) [
      | inl equal ↦
          elim (same_length key zero_hash zero_hash es fs refl hes hfs (ground (arith, equal)) v w
            end) [ inl (starts, all) ↦ inl all | inr broken ↦ inr broken ]
      | inr other ↦
          inr
            (longer key zero_hash zero_hash es fs refl hes hfs (ground (arith, other, len)) v w end)
    ]
