-- ===== src/Messaging/Grants.antt =====
-- core/messaging/src/grants.rs: capability tokens, the sessions that hold them, and consent that is
-- withdrawn. A `ConsentRevocationHandle` is a shared `AtomicBool`: the place of its flag in a store of
-- flags. `Instant::now()` is an argument.
pub mod Withdrawal
pub mod Granted
mod Tests
use lowband.Prelude.{
  ℕ, ◌+◌, Bool, true, false, not, ◌&&◌, Option, none, some, List, [], ◌∷◌, ◌++◌, length, get_or,
  set, leb, if◌then◌else◌,
}

abbrev pub Store : Type 0
Store = List Bool

abbrev pub Handle : Type 0
Handle = ℕ

-- `Arc::new(AtomicBool::new(false))`: the next place of the store.
unfoldable pub new_handle : Store → Handle × Store
new_handle store = (length store, store ++ (false ∷ []))

unfoldable pub withdraw : Store → Handle → Store
withdraw store handle = set store handle true

unfoldable pub is_withdrawn : Store → Handle → Bool
is_withdrawn store handle = get_or store handle false

pub data CapabilityError : Type 0 where
  no_active_grant grant_expired consent_withdrawn : CapabilityError

-- `Result<(), CapabilityError>`
pub data Verdict : Type 0 where
  accepted : Verdict
  rejected : CapabilityError → Verdict

pub record ViewGrant : Type 0 where
  pub expires_at : Option ℕ
  pub revocation : Option Handle

pub record ControlGrant : Type 0 where
  pub expires_at : Option ℕ
  pub revocation : Option Handle

pub record FileGrant : Type 0 where
  pub revocation : Option Handle

pub record ViewSession : Type 0 where
  pub grant : Option ViewGrant

pub record ControlSession : Type 0 where
  pub grant : Option ControlGrant

pub record FileSession : Type 0 where
  pub grant : Option FileGrant

-- `set_grant` of the three sessions.
abbrev pub view_set_grant : ViewSession → Option ViewGrant → ViewSession
view_set_grant session grant = record session { grant = grant }

abbrev pub control_set_grant : ControlSession → Option ControlGrant → ControlSession
control_set_grant session grant = record session { grant = grant }

abbrev pub file_set_grant : FileSession → Option FileGrant → FileSession
file_set_grant session grant = record session { grant = grant }

-- `with_duration` and `with_consent` of view grants, and of control and file grants.
abbrev pub view_with_duration : ℕ → ℕ → ViewGrant
view_with_duration now duration = record { expires_at = some (now + duration); revocation = none }

abbrev pub view_with_consent : Handle → ViewGrant
view_with_consent handle = record { expires_at = none; revocation = some handle }

abbrev pub control_with_duration : ℕ → ℕ → ControlGrant
control_with_duration now duration = record {
  expires_at = some (now + duration);
  revocation = none;
}

abbrev pub control_with_consent : Handle → ControlGrant
control_with_consent handle = record { expires_at = none; revocation = some handle }

abbrev pub file_with_consent : Handle → FileGrant
file_with_consent handle = record { revocation = some handle }

-- `revocation.as_ref().map_or(false, |r| r.is_withdrawn())`
unfoldable pub revoked : Store → Option Handle → Bool
revoked store none = false
revoked store (some handle) = is_withdrawn store handle

-- `is_expired` of a view or control grant.
unfoldable pub is_expired : ℕ → Option ℕ → Bool
is_expired now none = false
is_expired now (some deadline) = leb deadline now

-- The checks of `apply_frame` and of `apply_event` on the grant that is held, in their order.
unfoldable pub check_grant : Store → ℕ → Option Handle → Option ℕ → Verdict
check_grant store now revocation expires_at =
    if revoked store revocation
    then rejected consent_withdrawn
    else if is_expired now expires_at
    then rejected grant_expired
    else accepted

unfoldable pub apply_frame : Store → ℕ → ViewSession → Verdict
apply_frame store now session = elim session.grant [
  | none ↦ rejected no_active_grant
  | some g ↦ check_grant store now g.revocation g.expires_at
]

unfoldable pub apply_event : Store → ℕ → ControlSession → Verdict
apply_event store now session = elim session.grant [
  | none ↦ rejected no_active_grant
  | some g ↦ check_grant store now g.revocation g.expires_at
]

unfoldable pub apply_chunk : Store → FileSession → Verdict
apply_chunk store session = elim session.grant [
  | none ↦ rejected no_active_grant
  | some g ↦ (if revoked store g.revocation then rejected consent_withdrawn else accepted)
]

unfoldable pub view_granted : Store → ℕ → ViewSession → Bool
view_granted store now session = elim session.grant [
  | none ↦ false
  | some g ↦ not (revoked store g.revocation) && not (is_expired now g.expires_at)
]

unfoldable pub control_granted : Store → ℕ → ControlSession → Bool
control_granted store now session = elim session.grant [
  | none ↦ false
  | some g ↦ not (revoked store g.revocation) && not (is_expired now g.expires_at)
]

unfoldable pub file_granted : Store → FileSession → Bool
file_granted store session = elim session.grant [
  | none ↦ false
  | some g ↦ not (revoked store g.revocation)
]

pub record ConsentGrant : Type 0 where
  pub duration : Option ℕ

-- What `issue_all` returns, and the store with the flag that it makes.
pub record Issued : Type 0 where
  pub view : ViewGrant
  pub control : ControlGrant
  pub file : FileGrant
  pub handle : Handle
  pub store : Store

-- `self.duration.map(|d| Instant::now() + d)`
unfoldable pub deadline_at : ℕ → Option ℕ → Option ℕ
deadline_at now none = none
deadline_at now (some d) = some (now + d)

unfoldable pub issue_all : Store → ℕ → ConsentGrant → Issued
unfolding new_handle
issue_all store now consent =
    let made = new_handle store in
    let exp = deadline_at now consent.duration in
    record {
      view = record { expires_at = exp; revocation = some made.0 };
      control = record { expires_at = exp; revocation = some made.0 };
      file = record { revocation = some made.0 };
      handle = made.0;
      store = made.1;
    }

unfoldable pub into_grants : ℕ → ConsentGrant → ViewGrant × ControlGrant
into_grants now consent = elim consent.duration [
  | none ↦ (
    record { expires_at = none; revocation = none },
    record { expires_at = none; revocation = none },
  )
  | some d ↦ (
    record { expires_at = some (now + d); revocation = none },
    record { expires_at = some (now + d); revocation = none },
  )
]
