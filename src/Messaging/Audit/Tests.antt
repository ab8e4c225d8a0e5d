-- ===== src/Messaging/Audit/Tests.antt =====
-- core/messaging/src/audit.rs: the reference values of SipHash-2-4, and a log of three events.
use lowband.Prelude.{ℕ, ◌≡◌, ◌⊎◌, ◌↔◌, refl, arith, true, none, some, List, [], ◌∷◌, replicate}
use lowband.Messaging.Audit.{
  AuditEntry, AuditLog, new, append_inner, append, append_with_identity, zero_hash, verify,
  verify_entries,
}
use lowband.Messaging.Audit.Hash.{siphash24}
use lowband.Messaging.Audit.Verify.{append_all, verify_entries_iff}
use lowband.Messaging.Audit.Tamper.{AllEntries, AllSame, Broken, verify_entries-AllSame}

siphash24_empty : siphash24 0x0706050403020100 0x0f0e0d0c0b0a0908 [] ≡ 0x726fdb47dd0e0e31
unfolding siphash24
siphash24_empty = refl

siphash24_one : siphash24 0x0706050403020100 0x0f0e0d0c0b0a0908 (0 ∷ []) ≡ 0x74f839c593dc67fd
unfolding siphash24
siphash24_one = refl

abbrev key : List ℕ
key = replicate 32 66

-- "view_granted" for "view", "identity_verified" for a peer, "session_ended".
abbrev events : List AuditEntry
events =
    record {
      event_type = 118 ∷ 105 ∷ 101 ∷ 119 ∷ 95 ∷ 103 ∷ 114 ∷ 97 ∷ 110 ∷ 116 ∷ 101 ∷ 100 ∷ [];
      capability = some (118 ∷ 105 ∷ 101 ∷ 119 ∷ []);
      identity_key = none;
      occurred_at_ms = 1000;
      signature = [];
    }
    ∷ record {
      event_type = 105 ∷ 100 ∷ 95 ∷ 111 ∷ 107 ∷ [];
      capability = none;
      identity_key = some (replicate 32 171);
      occurred_at_ms = 1001;
      signature = [];
    }
    ∷ record {
      event_type = 101 ∷ 110 ∷ 100 ∷ [];
      capability = none;
      identity_key = none;
      occurred_at_ms = 1002;
      signature = [];
    }
    ∷ []

-- The log of these events, by the operations.
abbrev session : AuditLog
session =
    append
      (append_with_identity
        (append (new key) (118 ∷ 105 ∷ 101 ∷ 119 ∷ 95 ∷ 103 ∷ 114 ∷ 97 ∷ 110 ∷ 116 ∷ 101 ∷ 100 ∷ [])
          (some (118 ∷ 105 ∷ 101 ∷ 119 ∷ [])) 1000)
        (105 ∷ 100 ∷ 95 ∷ 111 ∷ 107 ∷ []) none (replicate 32 171) 1001)
      (101 ∷ 110 ∷ 100 ∷ []) none 1002

session_same : append_all (new key) events ≡ session
unfolding append append_with_identity
session_same = refl

written_again : (append_all (new key) session.entries).entries ≡ session.entries
unfolding append append_with_identity append_inner new
written_again = refl

verify_entries_iff_example :
    (verify_entries session.entries key ≡ true)
    ↔ ((append_all (new key) session.entries).entries ≡ session.entries)
verify_entries_iff_example = verify_entries_iff key session.entries

session_verifies : verify_entries session.entries key ≡ true
session_verifies = verify_entries_iff_example.1 written_again

session_verifies_too : verify session ≡ true
unfolding verify append append_with_identity append_inner new
session_verifies_too = session_verifies

session-AllEntries : AllEntries session.entries
unfolding append append_with_identity append_inner new
session-AllEntries = (
  record { event = omega arith; capability = omega arith; identity = tt; time = omega arith },
  (
    record { event = omega arith; capability = omega arith; identity = refl; time = omega arith },
    (
      record { event = omega arith; capability = omega arith; identity = tt; time = omega arith },
      tt,
    ),
  ),
)

verify_entries-AllSame_example :
    AllSame session.entries session.entries
    ⊎ Broken key zero_hash zero_hash session.entries session.entries
verify_entries-AllSame_example =
    verify_entries-AllSame key session.entries session.entries session-AllEntries session-AllEntries
      (omega arith) session_verifies session_verifies refl
