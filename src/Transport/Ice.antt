-- ===== src/Transport/Ice.antt =====
-- core/lbtp/src/ice_candidate.rs: the gathering of ICE candidates, with its timers in control ticks.
pub mod Rank
pub mod Runs
pub mod Timeout
pub mod Silence
pub mod Order
mod Tests
use Prim.Native.Nat.{bit_or}
use lowband.Prelude.{
  ℕ, zero, suc, ◌+◌, ◌-◌, ◌*◌, ◌%◌, ◌^◌, Bool, true, false, Option, none, some, List, [], ◌∷◌, ◌++◌,
}

abbrev pub stun_timeout_ticks : ℕ
stun_timeout_ticks = 5

abbrev pub stun_max_retries : ℕ
stun_max_retries = 2

abbrev pub turn_timeout_ticks : ℕ
turn_timeout_ticks = 10

abbrev pub turn_max_retries : ℕ
turn_max_retries = 2

abbrev pub host_type_preference : ℕ
host_type_preference = 126

abbrev pub srflx_type_preference : ℕ
srflx_type_preference = 100

abbrev pub relay_type_preference : ℕ
relay_type_preference = 0

abbrev pub local_preference_base : ℕ
local_preference_base = 65535

abbrev pub component_id : ℕ
component_id = 1

unfoldable pub ice_priority : ℕ → ℕ → ℕ
ice_priority type_pref local_pref =
    bit_or (bit_or (type_pref * 2 ^ 24 % 2 ^ 32) (local_pref * 2 ^ 8 % 2 ^ 32)) (256 - component_id)

-- The octets of the address, and the port.
abbrev pub SocketAddr : Type 0
SocketAddr = List ℕ × ℕ

pub data IceCandidateType : Type 0 where
  host server_reflexive relayed : IceCandidateType

pub record IceCandidate : Type 0 where
  pub candidate_type : IceCandidateType
  pub addr : SocketAddr
  pub priority : ℕ
  pub foundation : ℕ

abbrev pub host_candidate : SocketAddr → ℕ → ℕ → IceCandidate
host_candidate addr local_pref foundation = record {
  candidate_type = host;
  addr = addr;
  priority = (ice_priority host_type_preference local_pref);
  foundation = foundation;
}

abbrev pub server_reflexive_candidate : SocketAddr → ℕ → IceCandidate
server_reflexive_candidate addr foundation = record {
  candidate_type = server_reflexive;
  addr = addr;
  priority = (ice_priority srflx_type_preference local_preference_base);
  foundation = foundation;
}

abbrev pub relayed_candidate : SocketAddr → ℕ → IceCandidate
relayed_candidate addr foundation = record {
  candidate_type = relayed;
  addr = addr;
  priority = (ice_priority relay_type_preference local_preference_base);
  foundation = foundation;
}

pub data IceCandidateEvent : Type 0 where
  candidate_ready : IceCandidate → IceCandidateEvent
  send_stun_request : IceCandidateEvent
  retransmit_stun : IceCandidateEvent
  send_turn_allocate : IceCandidateEvent
  retransmit_turn : IceCandidateEvent
  gathering_complete : IceCandidateEvent

-- The retries that are left, and the ticks that remain.
pub data GatherState : Type 0 where
  idle : GatherState
  gathering_server_reflexive : ℕ → ℕ → GatherState
  gathering_relayed : ℕ → ℕ → GatherState
  complete : GatherState

pub record IceCandidateGatherer : Type 0 where
  pub state : GatherState
  pub next_foundation : ℕ

unfoldable pub new : IceCandidateGatherer
new = record { state = idle; next_foundation = 1 }

-- The loop over the host addresses from index `i`: the events, and the next foundation.
unfoldable pub host_events : ℕ → ℕ → List SocketAddr → List IceCandidateEvent × ℕ
host_events i foundation [] = ([], foundation)
host_events i foundation (addr ∷ addrs) =
    let (events, next) = host_events (suc i) ((foundation + 1) % 2 ^ 32) addrs in
    (
      candidate_ready (host_candidate addr (local_preference_base - i % 2 ^ 32) foundation)
          ∷ events,
      next,
    )

unfoldable pub start :
    IceCandidateGatherer → List SocketAddr → IceCandidateGatherer × List IceCandidateEvent
unfolding host_events
start g host_addrs =
    let (events, next) = host_events 0 g.next_foundation host_addrs in
    (
      record {
        state = (gathering_server_reflexive stun_max_retries stun_timeout_ticks);
        next_foundation = next;
      },
      events ++ (send_stun_request ∷ []),
    )

-- `on_stun_response` in a state.
abbrev pub stun_response_in :
    GatherState → ℕ → SocketAddr → Option (GatherState × ℕ × List IceCandidateEvent)
stun_response_in (gathering_server_reflexive _ _) foundation mapped_addr = some (
  gathering_relayed turn_max_retries turn_timeout_ticks,
  (foundation + 1) % 2 ^ 32,
  candidate_ready (server_reflexive_candidate mapped_addr foundation) ∷ send_turn_allocate ∷ [],
)
stun_response_in _ foundation mapped_addr = none

-- `on_turn_allocated` in a state.
abbrev pub turn_allocated_in :
    GatherState → ℕ → SocketAddr → Option (GatherState × ℕ × List IceCandidateEvent)
turn_allocated_in (gathering_relayed _ _) foundation relay_addr = some (
  complete,
  (foundation + 1) % 2 ^ 32,
  candidate_ready (relayed_candidate relay_addr foundation) ∷ gathering_complete ∷ [],
)
turn_allocated_in _ foundation relay_addr = none

-- The gatherer behind a response, and what the call returns.
abbrev pub respond :
    IceCandidateGatherer
    → Option (GatherState × ℕ × List IceCandidateEvent)
    → IceCandidateGatherer × Option (List IceCandidateEvent)
respond g none = (g, none)
respond g (some (state, next, events)) =
    (record { state = state; next_foundation = next }, some events)

unfoldable pub on_stun_response :
    IceCandidateGatherer → SocketAddr → IceCandidateGatherer × Option (List IceCandidateEvent)
on_stun_response g mapped_addr = respond g (stun_response_in g.state g.next_foundation mapped_addr)

unfoldable pub on_turn_allocated :
    IceCandidateGatherer → SocketAddr → IceCandidateGatherer × Option (List IceCandidateEvent)
on_turn_allocated g relay_addr = respond g (turn_allocated_in g.state g.next_foundation relay_addr)

abbrev pub tick_state : GatherState → GatherState × Option IceCandidateEvent
tick_state (gathering_server_reflexive retries (suc ticks)) =
    (gathering_server_reflexive retries ticks, none)
tick_state (gathering_server_reflexive zero zero) =
    (gathering_relayed turn_max_retries turn_timeout_ticks, some send_turn_allocate)
tick_state (gathering_server_reflexive (suc retries) zero) =
    (gathering_server_reflexive retries stun_timeout_ticks, some retransmit_stun)
tick_state (gathering_relayed retries (suc ticks)) = (gathering_relayed retries ticks, none)
tick_state (gathering_relayed zero zero) = (complete, some gathering_complete)
tick_state (gathering_relayed (suc retries) zero) =
    (gathering_relayed retries turn_timeout_ticks, some retransmit_turn)
tick_state idle = (idle, none)
tick_state complete = (complete, none)

unfoldable pub tick : IceCandidateGatherer → IceCandidateGatherer × Option IceCandidateEvent
tick g =
    let (state, event) = tick_state g.state in
    (record { state = state; next_foundation = g.next_foundation }, event)

abbrev pub is_complete_state : GatherState → Bool
is_complete_state complete = true
is_complete_state _ = false

unfoldable pub is_complete : IceCandidateGatherer → Bool
is_complete g = is_complete_state g.state
