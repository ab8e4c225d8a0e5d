-- ===== src/Messaging/Panic/Safety.antt =====
-- core/messaging/src/panic_key.rs: what the panic key does to control and to the call.
use lowband.Prelude.{ℕ, ◌≡◌, refl, Bool, true, false, Option, none, some, ◌⊎◌, inl, inr, Bool-cases}
use lowband.Messaging.Grants.{
  Store, ControlGrant, ControlSession, control_set_grant, rejected, no_active_grant, apply_event,
}
use lowband.Messaging.Panic.{
  PanicController, new, set_transport_up, fire_panic, fire_panic_with_notice, clear_panic,
}

-- The panic key severs control exactly when a session is live. Then the session rejects every event
-- for want of a grant, at every moment, the transport stays up, the panic is recorded, and the notice
-- carries the next sequence number. Without a session nothing changes and there is no notice.
fire_panic_with_notice-Outcome :
    (panic : PanicController) (control : ControlSession)
    → let fired = fire_panic_with_notice panic control in
      ((panic.transport_up ≡ true)
        × ((store : Store) (now : ℕ)
            → apply_event store now fired.control ≡ rejected no_active_grant)
        × (fired.panic.transport_up ≡ true)
        × (fired.panic.panic_fired ≡ true)
        × (fired.notice ≡ some (record { seq = panic.next_seq }))
        × (fired.effect ≡ record { injection_revoked = true; transport_up = true }))
      ⊎ ((panic.transport_up ≡ false)
          × (fired.control ≡ control)
          × (fired.panic ≡ panic)
          × (fired.notice ≡ none)
          × (fired.effect ≡ record { injection_revoked = false; transport_up = false }))
unfolding fire_panic_with_notice fire_panic apply_event
fire_panic_with_notice-Outcome panic control = elim (Bool-cases panic.transport_up) [
  | inl up ↦ inl (up, (λ store now. rw up refl), rw up refl, rw up refl, rw up refl, rw up refl)
  | inr down ↦ inr (down, rw down refl, rw down refl, rw down refl, rw down refl)
]

-- The runs of the assisted side: a session starts with no grant, and the transport comes and goes,
-- control is given or taken back, the key is pressed, and the panic is cleared, in any order.
pub data Reached : PanicController → ControlSession → Type 0 where
  started : Reached new (record { grant = none })
  transport :
      {p : PanicController} {c : ControlSession} (up : Bool)
      → Reached p c
      → Reached (set_transport_up p up) c
  regranted :
      {p : PanicController} {c : ControlSession} (g : Option ControlGrant)
      → Reached p c
      → Reached p (control_set_grant c g)
  pressed :
      {p : PanicController} {c : ControlSession}
      → Reached p c
      → Reached (fire_panic_with_notice p c).panic (fire_panic_with_notice p c).control
  cleared : {p : PanicController} {c : ControlSession} → Reached p c → Reached (clear_panic p) c

-- On the assisted side a panic is recorded only while the transport is up: of the four combinations
-- of the two flags only the three of the documented table are reached.
Reached-flags :
    {p : PanicController} {c : ControlSession}
    → Reached p c
    → (p.panic_fired ≡ false) ⊎ (p.transport_up ≡ true)
unfolding new set_transport_up fire_panic_with_notice fire_panic clear_panic
Reached-flags started = inl refl
Reached-flags (transport true r) = inr refl
Reached-flags (transport false r) = inl refl
Reached-flags (regranted g r) = Reached-flags r
Reached-flags (pressed {p = p} {c = c} r) = elim (Bool-cases p.transport_up) [
  | inl up ↦ inr (rw up refl)
  | inr down ↦ rw down (rw down at (Reached-flags r))
]
Reached-flags (cleared r) = inl refl
