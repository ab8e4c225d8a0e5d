-- ===== src/Transport/Ice/Timeout.antt =====
-- core/lbtp/src/ice_candidate.rs: gathering ends, whatever arrives.
use lowband.Prelude.{
  ℕ, zero, suc, ◌+◌, ◌-◌, ◌*◌, ◌≤◌, ◌<◌, ◌≡◌, refl, arith, true, List, [], ◌∷◌, ◌++◌, ◌⊎◌, inl, inr,
}
use lowband.Transport.Ice.{
  SocketAddr, IceCandidateEvent, candidate_ready, send_stun_request, retransmit_stun,
  send_turn_allocate, retransmit_turn, gathering_complete, GatherState, idle,
  gathering_server_reflexive, gathering_relayed, complete, IceCandidateGatherer, start,
  on_stun_response, on_turn_allocated, tick, is_complete_state, is_complete,
}
use lowband.Transport.Ice.Runs.{
  Input, control_tick, stun_response, turn_allocated, step, run, count_ticks, completions,
}

-- The ticks until gathering ends, if nothing arrives.
unfoldable pub budget : GatherState → ℕ
budget idle = 0
budget (gathering_server_reflexive retries ticks) = ticks + 1 + 6 * retries + 33
budget (gathering_relayed retries ticks) = ticks + 1 + 11 * retries
budget complete = 0

completions-append :
    (xs ys : List IceCandidateEvent) → completions (xs ++ ys) ≡ completions xs + completions ys
completions-append [] ys = omega arith
completions-append (candidate_ready c ∷ xs) ys = completions-append xs ys
completions-append (send_stun_request ∷ xs) ys = completions-append xs ys
completions-append (retransmit_stun ∷ xs) ys = completions-append xs ys
completions-append (send_turn_allocate ∷ xs) ys = completions-append xs ys
completions-append (retransmit_turn ∷ xs) ys = completions-append xs ys
completions-append (gathering_complete ∷ xs) ys = omega (arith, completions-append xs ys)

abbrev in_progress : GatherState → ℕ
in_progress idle = 0
in_progress (gathering_server_reflexive _ _) = 1
in_progress (gathering_relayed _ _) = 1
in_progress complete = 0

abbrev finished : GatherState → ℕ
finished complete = 1
finished _ = 0

-- A call ends gathering exactly where it returns `gathering_complete`, and a tick takes one from the
-- budget of a state that is gathering.
record Counts (s next : GatherState) (ended ticks : ℕ) : Type 0 where
  leaves : ended + in_progress next ≡ in_progress s
  enters : ended + finished s ≡ finished next
  spends : budget next + ticks ≤ budget s + (1 - in_progress s)

step-Counts :
    (s : GatherState) (f : ℕ) (i : Input)
    → let (next, events) = step (record { state = s; next_foundation = f }) i in
      Counts s next.state (completions events) (count_ticks (i ∷ []))
unfolding tick on_stun_response on_turn_allocated budget
step-Counts idle f control_tick = record { leaves = refl; enters = refl; spends = omega arith }
step-Counts idle f (stun_response addr) = record {
  leaves = refl;
  enters = refl;
  spends = omega arith;
}
step-Counts idle f (turn_allocated addr) = record {
  leaves = refl;
  enters = refl;
  spends = omega arith;
}
step-Counts complete f control_tick = record { leaves = refl; enters = refl; spends = omega arith }
step-Counts complete f (stun_response addr) = record {
  leaves = refl;
  enters = refl;
  spends = omega arith;
}
step-Counts complete f (turn_allocated addr) = record {
  leaves = refl;
  enters = refl;
  spends = omega arith;
}
step-Counts (gathering_server_reflexive r (suc t)) f control_tick = record {
  leaves = refl;
  enters = refl;
  spends = omega arith;
}
step-Counts (gathering_server_reflexive zero zero) f control_tick = record {
  leaves = refl;
  enters = refl;
  spends = omega arith;
}
step-Counts (gathering_server_reflexive (suc r) zero) f control_tick = record {
  leaves = refl;
  enters = refl;
  spends = omega arith;
}
step-Counts (gathering_server_reflexive r t) f (stun_response addr) = record {
  leaves = refl;
  enters = refl;
  spends = omega arith;
}
step-Counts (gathering_server_reflexive r t) f (turn_allocated addr) = record {
  leaves = refl;
  enters = refl;
  spends = omega arith;
}
step-Counts (gathering_relayed r (suc t)) f control_tick = record {
  leaves = refl;
  enters = refl;
  spends = omega arith;
}
step-Counts (gathering_relayed zero zero) f control_tick = record {
  leaves = refl;
  enters = refl;
  spends = omega arith;
}
step-Counts (gathering_relayed (suc r) zero) f control_tick = record {
  leaves = refl;
  enters = refl;
  spends = omega arith;
}
step-Counts (gathering_relayed r t) f (stun_response addr) = record {
  leaves = refl;
  enters = refl;
  spends = omega arith;
}
step-Counts (gathering_relayed r t) f (turn_allocated addr) = record {
  leaves = refl;
  enters = refl;
  spends = omega arith;
}

count_ticks-cons :
    (i : Input) (is : List Input) → count_ticks (i ∷ is) ≡ count_ticks (i ∷ []) + count_ticks is
count_ticks-cons control_tick is = omega arith
count_ticks-cons (stun_response addr) is = omega arith
count_ticks-cons (turn_allocated addr) is = omega arith

run_counts :
    (g : IceCandidateGatherer) (is : List Input)
    → let (last, events) = run g is in
      (completions events + in_progress last.state ≡ in_progress g.state)
      × (completions events + finished g.state ≡ finished last.state)
run_counts g [] = (omega arith, omega arith)
run_counts g (i ∷ is) =
    let h = step-Counts g.state g.next_foundation i in
    let (next, events) = step g i in
    let (leaves, enters) = run_counts next is in
    let more = completions-append events (run next is).1 in
    let first = h.leaves in
    let second = h.enters in
    (omega (arith, leaves, more, first), omega (arith, enters, more, second))

progress_cases : (s : GatherState) → (in_progress s ≡ 1) ⊎ (in_progress s ≡ 0)
progress_cases idle = inr refl
progress_cases (gathering_server_reflexive r t) = inl refl
progress_cases (gathering_relayed r t) = inl refl
progress_cases complete = inr refl

run_spends :
    (g : IceCandidateGatherer) (is : List Input)
    → in_progress (run g is).0.state ≡ 1
    → budget (run g is).0.state + count_ticks is ≤ budget g.state
run_spends g [] h = omega arith
run_spends g (i ∷ is) h =
    let next = (step g i).0 in
    let c = step-Counts g.state g.next_foundation i in
    let (leaves, enters) = run_counts next is in
    let rest = run_spends next is h in
    let spends = c.spends in
    let before = c.leaves in
    let progress : in_progress g.state ≤ 1 = ground (arith, progress_cases g.state) in
    omega (arith, rest, spends, before, leaves, h, progress, count_ticks-cons i is)

budget_positive : (s : GatherState) → in_progress s ≡ 1 → 0 < budget s
unfolding budget
budget_positive idle h = absurd cc
budget_positive complete h = absurd cc
budget_positive (gathering_server_reflexive r t) h = omega arith
budget_positive (gathering_relayed r t) h = omega arith

is_complete_state-finished : (s : GatherState) → finished s ≡ 1 → is_complete_state s ≡ true
is_complete_state-finished idle h = absurd cc
is_complete_state-finished (gathering_server_reflexive r t) h = absurd cc
is_complete_state-finished (gathering_relayed r t) h = absurd cc
is_complete_state-finished complete h = refl

start_state :
    (g : IceCandidateGatherer) (hosts : List SocketAddr)
    → (start g hosts).0.state ≡ gathering_server_reflexive 2 5
unfolding start
start_state g hosts = refl

pub start-budget :
    (g : IceCandidateGatherer) (hosts : List SocketAddr)
    → let s = (start g hosts).0.state in (budget s ≡ 51) × (in_progress s ≡ 1) × (finished s ≡ 0)
unfolding start budget
start-budget g hosts = (refl, refl, refl)

-- After a start, for any host addresses and whatever responses arrive between the ticks, in time, too
-- late or more than once: once 51 control ticks have passed, gathering is complete, and
-- `gathering_complete` was returned exactly once.
pub start_completes :
    (g : IceCandidateGatherer) (hosts : List SocketAddr) (is : List Input)
    → 51 ≤ count_ticks is
    → let (last, events) = run (start g hosts).0 is in
      (is_complete last ≡ true) × (completions events ≡ 1)
unfolding is_complete
start_completes g hosts is enough =
    let first = (start g hosts).0 in
    let (fifty_one, progress, unfinished) = start-budget g hosts in
    let (leaves, enters) = run_counts first is in
    let last = (run first is).0.state in
    elim (progress_cases last) [
      | inl going ↦
          let spent = run_spends first is going in
          let positive = budget_positive last going in
          absurd (omega (arith, spent, positive, fifty_one, enough))
      | inr over ↦
          let ended : completions (run first is).1 ≡ 1 = omega (arith, leaves, over, progress) in
          (is_complete_state-finished last (omega (arith, enters, ended, unfinished)), ended)
    ]
