-- ===== src/Transport/HolePunch.antt =====
-- core/lbtp/src/hole_punch.rs: the paced probes that open a direct path.
pub mod Silence
mod Tests
use lowband.Prelude.{
  ℕ, zero, suc, ◌+◌, ◌-◌, Bool, true, false, Option, none, some, List, [], ◌∷◌, ◌++◌, ltb, leb,
  if◌then◌else◌,
}
use lowband.Messaging.Bytes.{to_le_bytes}

abbrev pub hole_punch_probe_interval_ticks : ℕ
hole_punch_probe_interval_ticks = 5

abbrev pub hole_punch_max_probes : ℕ
hole_punch_max_probes = 10

pub record HolePunchProbeFrame : Type 0 where
  pub payload : List ℕ

-- `HolePunchProbeFrame::new`
unfoldable pub new_frame : ℕ → ℕ → HolePunchProbeFrame
new_frame nonce seq = record { payload = to_le_bytes 4 nonce ++ (seq ∷ []) }

pub data HolePunchEvent : Type 0 where
  send_probe : HolePunchProbeFrame → HolePunchEvent
  connected_event failed_event : HolePunchEvent

-- `probing nonce probes_sent ticks_remaining`
pub data HolePunchState : Type 0 where
  idle : HolePunchState
  probing : ℕ → ℕ → ℕ → HolePunchState
  connected failed : HolePunchState

pub record HolePunchController : Type 0 where
  pub state : HolePunchState

unfoldable pub new : HolePunchController
new = record { state = idle }

unfoldable pub start : HolePunchController → ℕ → HolePunchController × HolePunchProbeFrame
start c nonce =
    (record { state = probing nonce 1 hole_punch_probe_interval_ticks }, new_frame nonce 0)

-- The timer is at zero.
interval_elapsed : ℕ → ℕ → HolePunchController × Option HolePunchEvent
interval_elapsed nonce probes_sent =
    if leb hole_punch_max_probes probes_sent
    then (record { state = failed }, some failed_event)
    else (
      record { state = probing nonce (probes_sent + 1) hole_punch_probe_interval_ticks },
      some (send_probe (new_frame nonce probes_sent)),
    )

tick_state : HolePunchState → HolePunchController × Option HolePunchEvent
tick_state (probing nonce probes_sent (suc ticks_remaining)) =
    (record { state = probing nonce probes_sent ticks_remaining }, none)
tick_state (probing nonce probes_sent zero) = interval_elapsed nonce probes_sent
tick_state state = (record { state = state }, none)

pub tick : HolePunchController → HolePunchController × Option HolePunchEvent
tick c = tick_state c.state

received_in : HolePunchState → HolePunchController × Option HolePunchEvent
received_in (probing nonce probes_sent ticks_remaining) =
    (record { state = connected }, some connected_event)
received_in state = (record { state = state }, none)

pub on_probe_received : HolePunchController → HolePunchController × Option HolePunchEvent
on_probe_received c = received_in c.state

sent_in : HolePunchState → ℕ
sent_in (probing nonce probes_sent ticks_remaining) = probes_sent
sent_in failed = hole_punch_max_probes
sent_in _ = 0

pub probes_sent : HolePunchController → ℕ
probes_sent c = sent_in c.state
