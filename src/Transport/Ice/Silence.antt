-- ===== src/Transport/Ice/Silence.antt =====
-- core/lbtp/src/ice_candidate.rs: how long gathering lasts where nothing answers.
use lowband.Prelude.{
  ℕ, zero, suc, ◌-◌, ◌<◌, ◌≡◌, refl, sym, ap, ◌∙◌, arith, false, List, [], ◌∷◌, leb, Bool-cases,
  inl, inr,
}
use lowband.Transport.Ice.{
  SocketAddr, GatherState, idle, gathering_server_reflexive, gathering_relayed, complete,
  IceCandidateGatherer, start, tick, is_complete_state, is_complete,
}
use lowband.Transport.Ice.Runs.{Input, control_tick, run, count_ticks}
use lowband.Transport.Ice.Timeout.{budget, start-budget, start_completes}

-- `n` control ticks alone.
abbrev pub silence : ℕ → List Input
silence zero = []
silence (suc n) = control_tick ∷ silence n

tick-budget :
    (s : GatherState) (f : ℕ)
    → budget (tick (record { state = s; next_foundation = f })).0.state ≡ budget s - 1
unfolding tick budget
tick-budget idle f = refl
tick-budget complete f = refl
tick-budget (gathering_server_reflexive r (suc t)) f = omega arith
tick-budget (gathering_server_reflexive zero zero) f = refl
tick-budget (gathering_server_reflexive (suc r) zero) f = omega arith
tick-budget (gathering_relayed r (suc t)) f = omega arith
tick-budget (gathering_relayed zero zero) f = refl
tick-budget (gathering_relayed (suc r) zero) f = omega arith

silence-budget :
    (n : ℕ) (g : IceCandidateGatherer) → budget (run g (silence n)).0.state ≡ budget g.state - n
silence-budget zero g = omega arith
silence-budget (suc n) g =
    omega (arith, silence-budget n (tick g).0, tick-budget g.state g.next_foundation)

count_ticks-silence : (n : ℕ) → count_ticks (silence n) ≡ n
count_ticks-silence zero = refl
count_ticks-silence (suc n) = ap suc (count_ticks-silence n)

waits : (s : GatherState) → 0 < budget s → is_complete_state s ≡ false
unfolding budget
waits idle h = refl
waits (gathering_server_reflexive r t) h = refl
waits (gathering_relayed r t) h = refl
waits complete h = absurd (omega (arith, h))

-- Where no response arrives, gathering is complete after `n` control ticks if and only if `n` is at
-- least 51: each of the three Binding requests takes six ticks, each of the three Allocate requests
-- eleven.
is_complete-silence :
    (g : IceCandidateGatherer) (hosts : List SocketAddr) (n : ℕ)
    → is_complete (run (start g hosts).0 (silence n)).0 ≡ leb 51 n
unfolding is_complete
is_complete-silence g hosts n = elim (Bool-cases (leb 51 n)) [
  | inl enough ↦
      (start_completes g hosts (silence n) (ground (arith, enough, count_ticks-silence n))).0
      ∙ sym enough
  | inr early ↦
      let first = (start g hosts).0 in
      let (fifty_one, progress, unfinished) = start-budget g hosts in
      let left = silence-budget n first in
      let few : n < 51 = ground (arith, early) in
      waits (run first (silence n)).0.state (omega (arith, left, fifty_one, few)) ∙ sym early
]
