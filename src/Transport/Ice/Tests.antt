-- ===== src/Transport/Ice/Tests.antt =====
-- core/lbtp/src/ice_candidate.rs: runs of the gatherer.
use lowband.Prelude.{◌*◌, ◌^◌, ◌≡◌, refl, arith, true, List, [], ◌∷◌, ◌++◌}
use lowband.Transport.Ice.{
  SocketAddr, ice_priority, retransmit_stun, new, host_events, start, tick, is_complete,
}
use lowband.Transport.Ice.Runs.{
  Input, control_tick, stun_response, turn_allocated, run, completions,
}
use lowband.Transport.Ice.Timeout.{start_completes}
use lowband.Transport.Ice.Silence.{silence}
use lowband.Transport.Ice.Order.{candidates, Ranked, start-Ranked}

abbrev local : List SocketAddr
local = (192 ∷ 168 ∷ 0 ∷ 2 ∷ [], 4000) ∷ (10 ∷ 0 ∷ 0 ∷ 7 ∷ [], 4000) ∷ []

abbrev mapped : SocketAddr
mapped = (203 ∷ 0 ∷ 113 ∷ 9 ∷ [], 61000)

first_priority : ice_priority 126 65535 ≡ 2130706431
unfolding ice_priority
first_priority = refl

-- The first Binding request is sent again at the sixth tick.
sixth_tick : (run (start new local).0 (silence 6)).1 ≡ retransmit_stun ∷ []
unfolding start host_events tick
sixth_tick = refl

-- A response after one tick, a copy of it, and silence.
abbrev answered : List Input
answered = control_tick ∷ stun_response mapped ∷ stun_response mapped ∷ silence 50

start_completes_example :
    let (last, events) = run (start new local).0 answered in
    (is_complete last ≡ true) × (completions events ≡ 1)
start_completes_example = start_completes new local answered (omega arith)

new_foundation : new.next_foundation ≡ 1
unfolding new
new_foundation = refl

start-Ranked_example :
    let (first, events) = start new local in
    Ranked
      (127 * 2 ^ 24)
      new.next_foundation
      (candidates (events ++ (run first (stun_response mapped ∷ turn_allocated mapped ∷ [])).1))
start-Ranked_example =
    start-Ranked new local (stun_response mapped ∷ turn_allocated mapped ∷ []) (omega arith)
      (omega (arith, new_foundation))
