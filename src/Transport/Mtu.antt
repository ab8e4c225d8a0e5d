-- ===== src/Transport/Mtu.antt =====
-- core/lbtp/src/mtu.rs: path MTU discovery by a ladder of probes with a timer and retries.
pub mod Ladder
pub mod Countdown
mod Tests
use lowband.Prelude.{
  ℕ, zero, suc, ◌+◌, ◌-◌, Bool, true, false, Option, none, some, List, [], ◌∷◌, length, get_elem?,
  ltb, leb, ◌==◌, if◌then◌else◌,
}

abbrev pub mtu_base_bytes : ℕ
mtu_base_bytes = 1200

abbrev pub mtu_probe_steps : List ℕ
mtu_probe_steps = 1400 ∷ 1452 ∷ 1500 ∷ []

abbrev pub mtu_probe_timeout_ticks : ℕ
mtu_probe_timeout_ticks = 10

abbrev pub mtu_probe_max_retries : ℕ
mtu_probe_max_retries = 3

abbrev pub lbtp_overhead : ℕ
lbtp_overhead = 19

pub record MtuProbeFrame : Type 0 where
  pub target_mtu : ℕ
  pub payload_bytes : ℕ

pub data MtuEvent : Type 0 where
  retransmit : MtuProbeFrame → MtuEvent
  mtu_raised : ℕ → MtuEvent
  probe_failed : ℕ → MtuEvent

-- `probing target_mtu step_idx retries_left ticks_remaining`
pub data MtuState : Type 0 where
  idle : ℕ → MtuState
  probing : ℕ → ℕ → ℕ → ℕ → MtuState
  complete : MtuState

pub record PathMtuController : Type 0 where
  pub path_mtu : ℕ
  pub state : MtuState

unfoldable pub new : PathMtuController
new = record { path_mtu = mtu_base_bytes; state = idle 0 }

is_complete_state : MtuState → Bool
is_complete_state complete = true
is_complete_state _ = false

pub is_complete : PathMtuController → Bool
unfolding is_complete_state
is_complete c = is_complete_state c.state

is_probing_state : MtuState → Bool
is_probing_state (probing target step retries ticks) = true
is_probing_state _ = false

pub is_probing : PathMtuController → Bool
unfolding is_probing_state
is_probing c = is_probing_state c.state

-- `saturating_sub` on u16 is the truncated subtraction.
unfoldable pub make_probe : ℕ → MtuProbeFrame
make_probe target = record { target_mtu = target; payload_bytes = target - lbtp_overhead }

-- The step at `idx`, if the ladder has it.
start_at : PathMtuController → ℕ → PathMtuController × Option MtuProbeFrame
unfolding make_probe
start_at c idx = elim (get_elem? mtu_probe_steps idx) [
  | none ↦ (record c { state = complete }, none)
  | some target ↦ (
    record c { state = probing target idx mtu_probe_max_retries mtu_probe_timeout_ticks },
    some (make_probe target),
  )
]

start_in : MtuState → PathMtuController → PathMtuController × Option MtuProbeFrame
unfolding start_at
start_in (idle idx) c = start_at c idx
start_in (probing target idx retries ticks) c = start_at c idx
start_in complete c = (c, none)

unfoldable pub start_probe : PathMtuController → PathMtuController × Option MtuProbeFrame
unfolding start_in
start_probe c = start_in c.state c

-- The timer of a probe: it runs down, then the probe is sent again, then it fails.
tick_in : MtuState → PathMtuController → PathMtuController × Option MtuEvent
unfolding make_probe
tick_in (probing target idx retries (suc ticks)) c =
    (record c { state = probing target idx retries ticks }, none)
tick_in (probing target idx (suc retries) zero) c = (
  record c { state = probing target idx retries mtu_probe_timeout_ticks },
  some (retransmit (make_probe target)),
)
tick_in (probing target idx zero zero) c =
    (record c { state = idle idx }, some (probe_failed target))
tick_in other c = (c, none)

pub tick : PathMtuController → PathMtuController × Option MtuEvent
unfolding tick_in
tick c = tick_in c.state c

acked_in : MtuState → PathMtuController → ℕ → PathMtuController × Option MtuEvent
acked_in (probing target idx retries ticks) c acked =
    if acked == target
    then (
      record {
        path_mtu = target;
        state = if leb (length mtu_probe_steps) (idx + 1) then complete else idle (idx + 1);
      },
      some (mtu_raised target),
    )
    else (c, none)
acked_in _ c acked = (c, none)

pub on_probe_acked : PathMtuController → ℕ → PathMtuController × Option MtuEvent
unfolding acked_in
on_probe_acked c acked = acked_in c.state c acked
