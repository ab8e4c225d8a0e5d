-- ===== src/Transport/Ice/Runs.antt =====
-- core/lbtp/src/ice_candidate.rs: the calls of a gatherer, one after the other.
use lowband.Prelude.{ℕ, suc, Option, none, some, List, [], ◌∷◌, ◌++◌}
use lowband.Transport.Ice.{
  SocketAddr, IceCandidateEvent, gathering_complete, IceCandidateGatherer, on_stun_response,
  on_turn_allocated, tick,
}

-- A control tick, or a response that arrives.
pub data Input : Type 0 where
  control_tick : Input
  stun_response : SocketAddr → Input
  turn_allocated : SocketAddr → Input

abbrev emitted : Option IceCandidateEvent → List IceCandidateEvent
emitted none = []
emitted (some e) = e ∷ []

abbrev returned : Option (List IceCandidateEvent) → List IceCandidateEvent
returned none = []
returned (some es) = es

-- One call, and the events that it returns.
abbrev pub step : IceCandidateGatherer → Input → IceCandidateGatherer × List IceCandidateEvent
step g control_tick = let (next, event) = tick g in (next, emitted event)
step g (stun_response addr) =
    let (next, events) = on_stun_response g addr in (next, returned events)
step g (turn_allocated addr) =
    let (next, events) = on_turn_allocated g addr in (next, returned events)

abbrev pub run : IceCandidateGatherer → List Input → IceCandidateGatherer × List IceCandidateEvent
run g [] = (g, [])
run g (i ∷ is) =
    let (next, events) = step g i in let (last, more) = run next is in (last, events ++ more)

abbrev pub count_ticks : List Input → ℕ
count_ticks [] = 0
count_ticks (control_tick ∷ is) = suc (count_ticks is)
count_ticks (_ ∷ is) = count_ticks is

abbrev pub completions : List IceCandidateEvent → ℕ
completions [] = 0
completions (gathering_complete ∷ es) = suc (completions es)
completions (_ ∷ es) = completions es
