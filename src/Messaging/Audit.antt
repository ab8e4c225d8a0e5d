-- ===== src/Messaging/Audit.antt =====
-- core/messaging/src/audit.rs: the signed, chained audit log of a session. A string is its UTF-8
-- bytes; the identity key has 32 bytes and the time is a `u64`.
pub mod Hash
pub mod Payload
pub mod Verify
pub mod Tamper
mod Tests
use Prim.Native.Nat.{bit_xor}
use lowband.Prelude.{
  ℕ, suc, ◌+◌, ◌%◌, ◌^◌, Bool, true, not, ◌&&◌, Option, none, some, List, [], ◌∷◌, ◌++◌, length,
  replicate, bytes_eq, if◌then◌else◌, false,
}
use lowband.Messaging.Bytes.{to_le_bytes}
use lowband.Messaging.Audit.Hash.{kh256}

pub record AuditEntry : Type 0 where
  pub event_type : List ℕ
  pub capability : Option (List ℕ)
  pub identity_key : Option (List ℕ)
  pub occurred_at_ms : ℕ
  pub signature : List ℕ

pub record AuditLog : Type 0 where
  pub key : List ℕ
  pub chain_hash : List ℕ
  pub entries : List AuditEntry

abbrev pub zero_hash : List ℕ
zero_hash = replicate 32 0

unfoldable pub new : List ℕ → AuditLog
new key = record { key = key; chain_hash = zero_hash; entries = [] }

abbrev pub unwrap_or_empty : Option (List ℕ) → List ℕ
unwrap_or_empty none = []
unwrap_or_empty (some s) = s

-- The presence flag, and the key.
abbrev pub identity_bytes : Option (List ℕ) → List ℕ
identity_bytes none = 0 ∷ []
identity_bytes (some k) = 1 ∷ k

-- The buffer that is signed.
abbrev pub payload : List ℕ → List ℕ → Option (List ℕ) → Option (List ℕ) → ℕ → List ℕ
payload chain_hash event_type capability identity_key occurred_at_ms =
    chain_hash
    ++ (to_le_bytes 4 (length event_type % 2 ^ 32)
        ++ (event_type
            ++ (to_le_bytes 4 (length (unwrap_or_empty capability) % 2 ^ 32)
                ++ (unwrap_or_empty capability
                    ++ (identity_bytes identity_key ++ to_le_bytes 8 occurred_at_ms)))))

unfoldable pub sign_entry :
    List ℕ → List ℕ → List ℕ → Option (List ℕ) → Option (List ℕ) → ℕ → List ℕ
sign_entry key chain_hash event_type capability identity_key occurred_at_ms =
    kh256 key (payload chain_hash event_type capability identity_key occurred_at_ms)

abbrev pub derive_from : ℕ → List ℕ → List ℕ
derive_from i [] = []
derive_from i (b ∷ bs) = bit_xor b ((0x5c + i % 256) % 256) ∷ derive_from (suc i) bs

unfoldable pub advance_chain : List ℕ → List ℕ → List ℕ
advance_chain key sig = kh256 (derive_from 0 key) sig

unfoldable pub append_inner : AuditLog → List ℕ → Option (List ℕ) → Option (List ℕ) → ℕ → AuditLog
append_inner log event_type capability identity_key occurred_at_ms =
    let sig = sign_entry log.key log.chain_hash event_type capability identity_key occurred_at_ms in
    record {
      key = log.key;
      chain_hash = (advance_chain log.key sig);
      entries =
          log.entries
          ++ (record {
            event_type = event_type;
            capability = capability;
            identity_key = identity_key;
            occurred_at_ms = occurred_at_ms;
            signature = sig;
          }
              ∷ []);
    }

unfoldable pub append : AuditLog → List ℕ → Option (List ℕ) → ℕ → AuditLog
append log event_type capability occurred_at_ms =
    append_inner log event_type capability none occurred_at_ms

unfoldable pub append_with_identity : AuditLog → List ℕ → Option (List ℕ) → List ℕ → ℕ → AuditLog
append_with_identity log event_type capability identity_key occurred_at_ms =
    append_inner log event_type capability (some identity_key) occurred_at_ms

-- `sign_entry` on the fields of an entry.
abbrev pub expected : List ℕ → List ℕ → AuditEntry → List ℕ
expected key chain_hash e =
    sign_entry key chain_hash e.event_type e.capability e.identity_key e.occurred_at_ms

-- The loop, from a chain hash.
unfoldable pub verify_loop : List ℕ → List ℕ → List AuditEntry → Bool
verify_loop key chain_hash [] = true
verify_loop key chain_hash (e ∷ es) =
    if not (bytes_eq e.signature (expected key chain_hash e))
    then false
    else verify_loop key (advance_chain key e.signature) es

unfoldable pub verify_entries : List AuditEntry → List ℕ → Bool
unfolding verify_loop
verify_entries entries key = verify_loop key zero_hash entries

unfoldable pub verify : AuditLog → Bool
verify log = verify_entries log.entries log.key
