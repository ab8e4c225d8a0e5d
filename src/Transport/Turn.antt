-- ===== src/Transport/Turn.antt =====
-- core/lbtp/src/turn_relay.rs: the relay through a TURN server, its probes and keepalives in control
-- ticks, and the ChannelData framing.
pub mod Frame
pub mod Timer
mod Tests
use lowband.Prelude.{
  ℕ, zero, suc, ◌+◌, ◌*◌, ◌/◌, ◌%◌, ◌^◌, Bool, true, false, not, Option, none, some, List, [], ◌∷◌,
  ◌++◌, length, ltb, ◌==◌, if◌then◌else◌,
}

abbrev pub turn_channel_header_bytes : ℕ
turn_channel_header_bytes = 4

abbrev pub turn_max_payload_bytes : ℕ
turn_max_payload_bytes = 1_200

abbrev pub turn_probe_timeout_ticks : ℕ
turn_probe_timeout_ticks = 5

abbrev pub turn_probe_max_retries : ℕ
turn_probe_max_retries = 4

abbrev pub turn_keepalive_interval_ticks : ℕ
turn_keepalive_interval_ticks = 1_200

pub data RelayEvent : Type 0 where
  retransmit activated keepalive failed_event : RelayEvent

-- The retries that are left and the ticks that remain, or the ticks until a keepalive.
pub data RelayState : Type 0 where
  idle : RelayState
  probing : ℕ → ℕ → RelayState
  active : ℕ → RelayState
  failed : RelayState

pub record TurnRelayController : Type 0 where
  pub state : RelayState

unfoldable pub new : TurnRelayController
new = record { state = idle }

abbrev pub direct_path_failed_in : RelayState → RelayState
direct_path_failed_in idle = probing turn_probe_max_retries turn_probe_timeout_ticks
direct_path_failed_in (probing r t) = probing r t
direct_path_failed_in (active k) = active k
direct_path_failed_in failed = failed

unfoldable pub on_direct_path_failed : TurnRelayController → TurnRelayController
on_direct_path_failed c = record { state = direct_path_failed_in c.state }

abbrev pub relay_activated_in : RelayState → RelayState × Option RelayEvent
relay_activated_in (probing r t) = (active turn_keepalive_interval_ticks, some activated)
relay_activated_in idle = (idle, none)
relay_activated_in (active k) = (active k, none)
relay_activated_in failed = (failed, none)

unfoldable pub on_relay_activated : TurnRelayController → TurnRelayController × Option RelayEvent
on_relay_activated c =
    let (state, event) = relay_activated_in c.state in (record { state = state }, event)

abbrev pub relay_ack_in : RelayState → RelayState
relay_ack_in (active k) = active turn_keepalive_interval_ticks
relay_ack_in idle = idle
relay_ack_in (probing r t) = probing r t
relay_ack_in failed = failed

unfoldable pub on_relay_ack : TurnRelayController → TurnRelayController
on_relay_ack c = record { state = relay_ack_in c.state }

abbrev pub direct_path_recovered_in : RelayState → RelayState
direct_path_recovered_in (active k) = idle
direct_path_recovered_in idle = idle
direct_path_recovered_in (probing r t) = probing r t
direct_path_recovered_in failed = failed

unfoldable pub on_direct_path_recovered : TurnRelayController → TurnRelayController
on_direct_path_recovered c = record { state = direct_path_recovered_in c.state }

abbrev pub tick_state : RelayState → RelayState × Option RelayEvent
tick_state (active (suc k)) = (active k, none)
tick_state (active zero) = (active turn_keepalive_interval_ticks, some keepalive)
tick_state (probing r (suc t)) = (probing r t, none)
tick_state (probing zero zero) = (failed, some failed_event)
tick_state (probing (suc r) zero) = (probing r turn_probe_timeout_ticks, some retransmit)
tick_state idle = (idle, none)
tick_state failed = (failed, none)

unfoldable pub tick : TurnRelayController → TurnRelayController × Option RelayEvent
tick c = let (state, event) = tick_state c.state in (record { state = state }, event)

-- `is_active` and `is_failed` in a state.
abbrev pub is_active_state : RelayState → Bool
is_active_state (active k) = true
is_active_state _ = false

abbrev pub is_failed_state : RelayState → Bool
is_failed_state failed = true
is_failed_state _ = false

unfoldable pub is_active : TurnRelayController → Bool
is_active c = is_active_state c.state

unfoldable pub is_failed : TurnRelayController → Bool
is_failed c = is_failed_state c.state

pub record TurnChannelDataFramer : Type 0 where
  pub channel_number : ℕ

-- `to_be_bytes` and `from_be_bytes` of a `u16`
abbrev pub to_be_bytes : ℕ → List ℕ
to_be_bytes n = (n % 2 ^ 16 / 256) ∷ (n % 256) ∷ []

abbrev pub from_be_bytes : ℕ → ℕ → ℕ
from_be_bytes high low = 256 * high + low

unfoldable pub encode : TurnChannelDataFramer → List ℕ → Option (List ℕ)
encode framer ciphertext =
    if ltb turn_max_payload_bytes (length ciphertext)
    then none
    else some (
        to_be_bytes framer.channel_number
        ++ (to_be_bytes (length ciphertext % 2 ^ 16) ++ ciphertext))

unfoldable pub decode : List ℕ → Option (ℕ × List ℕ)
decode (c1 ∷ c2 ∷ l1 ∷ l2 ∷ rest) =
    if not (length (c1 ∷ c2 ∷ l1 ∷ l2 ∷ rest) == turn_channel_header_bytes + from_be_bytes l1 l2)
    then none
    else some (from_be_bytes c1 c2, rest)
decode _ = none
