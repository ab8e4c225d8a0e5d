-- ===== src/Messaging/Panic.antt =====
-- core/messaging/src/panic_key.rs: the panic key of the assisted side, the notice it sends, and the
-- receiver of the notice. The control session is the one of Messaging.Grants.
pub mod Notice
pub mod Safety
pub mod Delivery
mod Tests
use lowband.Prelude.{
  ℕ, ◌+◌, ◌%◌, ◌^◌, ◌≤◌, Bool, true, false, not, ◌||◌, Option, none, some, List, [], ◌∷◌, length,
  leb, ◌==◌, if◌then◌else◌,
}
use lowband.Messaging.Bytes.{to_le_bytes, from_le_bytes}
use lowband.Messaging.Wire.{PanicNotice}
use lowband.Messaging.Grants.{ControlSession, control_set_grant}

abbrev pub panic_notice_tag : ℕ
panic_notice_tag = 0x50

abbrev pub panic_notice_len : ℕ
panic_notice_len = 5

pub record PanicEffect : Type 0 where
  pub injection_revoked : Bool
  pub transport_up : Bool

unfoldable pub encode : PanicNotice → List ℕ
encode notice = panic_notice_tag ∷ to_le_bytes 4 notice.seq

-- The buffer of the right length has a first byte, so that `buf[0]` is in bounds.
unfoldable pub decode : List ℕ → Option PanicNotice
decode [] = none
decode (tag ∷ rest) =
    if not (length (tag ∷ rest) == panic_notice_len) || not (tag == panic_notice_tag)
    then none
    else some (record { seq = from_le_bytes rest })

pub record PanicNoticeReceiver : Type 0 where
  pub last_seq : Option ℕ

pub record PanicController : Type 0 where
  pub transport_up : Bool
  pub panic_fired : Bool
  pub next_seq : ℕ

unfoldable pub new : PanicController
new = record { transport_up = false; panic_fired = false; next_seq = 1 }

unfoldable pub receiver_new : PanicNoticeReceiver
receiver_new = record { last_seq = none }

-- `last_seq.is_some_and(|last| seq <= last)`
unfoldable pub is_stale : Option ℕ → ℕ → Bool
is_stale none seq = false
is_stale (some last) seq = leb seq last

-- The result of `apply`: whether the notice was new, and the three states that it works on.
pub record Applied : Type 0 where
  pub severed : Bool
  pub receiver : PanicNoticeReceiver
  pub control : ControlSession
  pub panic : PanicController

unfoldable pub apply :
    PanicNoticeReceiver → PanicNotice → ControlSession → PanicController → Applied
apply receiver notice control panic =
    if is_stale receiver.last_seq notice.seq
    then record { severed = false; receiver = receiver; control = control; panic = panic }
    else record {
      severed = true;
      receiver = record { last_seq = some notice.seq };
      control = control_set_grant control none;
      panic = record {
        transport_up = panic.transport_up;
        panic_fired = true;
        next_seq = panic.next_seq;
      };
    }

unfoldable pub set_transport_up : PanicController → Bool → PanicController
set_transport_up panic up = record {
  transport_up = up;
  panic_fired = (if up then panic.panic_fired else false);
  next_seq = panic.next_seq;
}

-- The result of `fire_panic`, and of `fire_panic_with_notice` with the notice.
pub record Fired : Type 0 where
  pub effect : PanicEffect
  pub notice : Option PanicNotice
  pub control : ControlSession
  pub panic : PanicController

unfoldable pub fire_panic : PanicController → ControlSession → Fired
fire_panic panic control =
    if not panic.transport_up
    then record {
      effect = record { injection_revoked = false; transport_up = false };
      notice = none;
      control = control;
      panic = panic;
    }
    else record {
      effect = record { injection_revoked = true; transport_up = true };
      notice = none;
      control = control_set_grant control none;
      panic = record {
        transport_up = panic.transport_up;
        panic_fired = true;
        next_seq = panic.next_seq;
      };
    }

-- `next_seq.wrapping_add(1)` on 32 bits.
unfoldable pub fire_panic_with_notice : PanicController → ControlSession → Fired
unfolding fire_panic
fire_panic_with_notice panic control =
    let fired = fire_panic panic control in
    if not fired.effect.injection_revoked then fired else record {
      effect = fired.effect;
      notice = some (record { seq = fired.panic.next_seq });
      control = fired.control;
      panic = record {
        transport_up = fired.panic.transport_up;
        panic_fired = fired.panic.panic_fired;
        next_seq = (fired.panic.next_seq + 1) % 2 ^ 32;
      };
    }

unfoldable pub clear_panic : PanicController → PanicController
clear_panic panic = record {
  transport_up = panic.transport_up;
  panic_fired = false;
  next_seq = panic.next_seq;
}
