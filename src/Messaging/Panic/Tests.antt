-- ===== src/Messaging/Panic/Tests.antt =====
-- core/messaging/src/panic_key.rs: runs of the panic key and its notices.
use lowband.Prelude.{ℕ, ◌≡◌, refl, arith, true, false, none, some, List, [], ◌∷◌}
use lowband.Messaging.Wire.{PanicNotice}
use lowband.Messaging.Grants.{ControlSession}
use lowband.Messaging.Panic.{
  PanicController, PanicNoticeReceiver, new, set_transport_up, apply, is_stale, Fired,
  fire_panic_with_notice,
}
use lowband.Messaging.Panic.Delivery.{AllSever, fire_panic_with_notice-AllSever}

abbrev live : PanicController
live = record { transport_up = true; panic_fired = false; next_seq = 1 }

abbrev held : ControlSession
held = record { grant = some (record { expires_at = none; revocation = none }) }

abbrev idle : PanicNoticeReceiver
idle = record { last_seq = none }

abbrev first : PanicNotice
first = record { seq = 1 }

abbrev first_bytes : List ℕ
first_bytes = 0x50 ∷ 1 ∷ 0 ∷ 0 ∷ 0 ∷ []

-- The receiver of a side without a session records a panic: the fourth combination of the two flags.
apply_without_session :
    (apply idle first held
      (record { transport_up = false; panic_fired = false; next_seq = 1 })).panic
    ≡ record { transport_up = false; panic_fired = true; next_seq = 1 }
unfolding apply is_stale
apply_without_session = refl

abbrev after_press : Fired
after_press =
    fire_panic_with_notice (set_transport_up new true)
      (record { grant = some (record { expires_at = none; revocation = none }) })

idle_fresh : is_stale idle.last_seq live.next_seq ≡ false
unfolding is_stale
idle_fresh = refl

fire_panic_with_notice-AllSever_example : AllSever 3 live idle
fire_panic_with_notice-AllSever_example =
    fire_panic_with_notice-AllSever 3 live idle refl (omega arith) idle_fresh
