-- ===== src/Messaging/Audit/Verify.antt =====
-- core/messaging/src/audit.rs: verification accepts what the log itself writes.
use lowband.Prelude.{
  ℕ, ◌≡◌, ◌↔◌, refl, sym, ap, ◌∙◌, true, false, List, [], ◌∷◌, ◌++◌, Bool-cases, inl, inr,
  append_assoc, append-nil, bytes_eq, bytes_eq→eq, bytes_eq_self,
}
use lowband.Messaging.Audit.{
  AuditEntry, AuditLog, new, append_inner, advance_chain, expected, verify_loop, verify_entries,
  zero_hash,
}

-- The entry that a log writes for the fields of `e`.
abbrev resigned : List ℕ → List ℕ → AuditEntry → AuditEntry
resigned key c e = record {
  event_type = e.event_type;
  capability = e.capability;
  identity_key = e.identity_key;
  occurred_at_ms = e.occurred_at_ms;
  signature = expected key c e;
}

-- `append_inner` with the fields of each entry, the signatures of the entries being ignored.
abbrev pub append_all : AuditLog → List AuditEntry → AuditLog
append_all log [] = log
append_all log (e ∷ es) =
    append_all (append_inner log e.event_type e.capability e.identity_key e.occurred_at_ms) es

abbrev resign : List ℕ → List ℕ → List AuditEntry → List AuditEntry
resign key c [] = []
resign key c (e ∷ es) = resigned key c e ∷ resign key (advance_chain key (expected key c e)) es

append_all-entries :
    (log : AuditLog) (es : List AuditEntry)
    → (append_all log es).entries ≡ log.entries ++ resign log.key log.chain_hash es
unfolding append_inner
append_all-entries log [] = sym (append-nil log.entries)
append_all-entries log (e ∷ es) =
    append_all-entries (append_inner log e.event_type e.capability e.identity_key e.occurred_at_ms)
      es
    ∙ append_assoc log.entries (resigned log.key log.chain_hash e ∷ [])
        (resign log.key (advance_chain log.key (expected log.key log.chain_hash e)) es)

false≢true : {A : Type 0} → false ≡ true → A
false≢true h = absurd cc

verify_loop-resign :
    (key c : List ℕ) (es : List AuditEntry) → verify_loop key c es ≡ true → resign key c es ≡ es
unfolding verify_loop
verify_loop-resign key c [] h = refl
verify_loop-resign key c (e ∷ es) h = elim (Bool-cases (bytes_eq e.signature (expected key c e))) [
  | inl good ↦
      let signed : expected key c e ≡ e.signature = sym (bytes_eq→eq _ _ good) in
      let rest = verify_loop-resign key (advance_chain key e.signature) es (rw good at h) in
      let first : resigned key c e ≡ e =
        ap
          (λ s. record {
            event_type = e.event_type;
            capability = e.capability;
            identity_key = e.identity_key;
            occurred_at_ms = e.occurred_at_ms;
            signature = s;
          })
          signed in
      let next = ap (λ s. resign key (advance_chain key s) es) signed ∙ rest in cc
  | inr bad ↦ false≢true (rw bad at h)
]

verify_loop-resigned :
    (key c : List ℕ) (es : List AuditEntry) → verify_loop key c (resign key c es) ≡ true
unfolding verify_loop
verify_loop-resigned key c [] = refl
verify_loop-resigned key c (e ∷ es) =
    rw (bytes_eq_self (expected key c e))
      (verify_loop-resigned key (advance_chain key (expected key c e)) es)

written :
    (key : List ℕ) (es : List AuditEntry)
    → (append_all (new key) es).entries ≡ resign key zero_hash es
unfolding new
written key es = append_all-entries (new key) es

-- A list of entries verifies under a key if and only if it is what an empty log with that key holds
-- after the events of those entries were appended in that order: every log that is only appended to
-- verifies, and nothing else does.
pub verify_entries_iff :
    (key : List ℕ) (es : List AuditEntry)
    → (verify_entries es key ≡ true) ↔ ((append_all (new key) es).entries ≡ es)
unfolding verify_entries
verify_entries_iff key es = (
  λ h. written key es ∙ verify_loop-resign key zero_hash es h,
  λ h.
      ap (verify_loop key zero_hash) (sym h ∙ written key es)
      ∙ verify_loop-resigned key zero_hash es,
)

verify_loop-append :
    (key c : List ℕ) (es fs : List AuditEntry)
    → verify_loop key c (es ++ fs) ≡ true
    → verify_loop key c es ≡ true
unfolding verify_loop
verify_loop-append key c [] fs h = refl
verify_loop-append key c (e ∷ es) fs h =
    elim (Bool-cases (bytes_eq e.signature (expected key c e))) [
      | inl good ↦
          rw good (verify_loop-append key (advance_chain key e.signature) es fs (rw good at h))
      | inr bad ↦ false≢true (rw bad at h)
    ]

-- The last entries of a list can be taken away.
verify_entries-append :
    (key : List ℕ) (es fs : List AuditEntry)
    → verify_entries (es ++ fs) key ≡ true
    → verify_entries es key ≡ true
unfolding verify_entries
verify_entries-append key es fs h = verify_loop-append key zero_hash es fs h
