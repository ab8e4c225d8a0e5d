-- ===== src/Messaging/Grants/Granted.antt =====
-- core/messaging/src/grants.rs: `is_granted` and the operations agree.
use lowband.Prelude.{ℕ, ◌≡◌, arith, true, not, ◌&&◌, ◌↔◌, Option, none, some}
use lowband.Messaging.Grants.{
  Store, Handle, accepted, ViewGrant, ControlGrant, FileGrant, ViewSession, ControlSession,
  FileSession, revoked, is_expired, check_grant, apply_frame, apply_event, apply_chunk,
  view_granted, control_granted, file_granted,
}

check_grant_iff :
    (store : Store) (now : ℕ) (revocation : Option Handle) (deadline : Option ℕ)
    → ((not (revoked store revocation) && not (is_expired now deadline)) ≡ true)
      ↔ (check_grant store now revocation deadline ≡ accepted)
unfolding check_grant
check_grant_iff store now revocation deadline = grind arith

view_iff :
    (store : Store) (now : ℕ) (grant : Option ViewGrant)
    → (view_granted store now (record { grant = grant }) ≡ true)
      ↔ (apply_frame store now (record { grant = grant }) ≡ accepted)
unfolding view_granted apply_frame
view_iff store now none = grind arith
view_iff store now (some g) = check_grant_iff store now g.revocation g.expires_at

control_iff :
    (store : Store) (now : ℕ) (grant : Option ControlGrant)
    → (control_granted store now (record { grant = grant }) ≡ true)
      ↔ (apply_event store now (record { grant = grant }) ≡ accepted)
unfolding control_granted apply_event
control_iff store now none = grind arith
control_iff store now (some g) = check_grant_iff store now g.revocation g.expires_at

file_iff :
    (store : Store) (grant : Option FileGrant)
    → (file_granted store (record { grant = grant }) ≡ true)
      ↔ (apply_chunk store (record { grant = grant }) ≡ accepted)
unfolding file_granted apply_chunk
file_iff store none = grind arith
file_iff store (some g) = grind arith

-- A session says that it is granted exactly when it accepts the operation that its grant is for, on
-- all three kinds of session, with or without a grant, at every moment and whatever is withdrawn.
granted_iff :
    (store : Store) (now : ℕ) (view : ViewSession) (control : ControlSession) (file : FileSession)
    → ((view_granted store now view ≡ true) ↔ (apply_frame store now view ≡ accepted))
      × ((control_granted store now control ≡ true) ↔ (apply_event store now control ≡ accepted))
      × ((file_granted store file ≡ true) ↔ (apply_chunk store file ≡ accepted))
granted_iff store now view control file =
    (view_iff store now view.grant, control_iff store now control.grant, file_iff store file.grant)
