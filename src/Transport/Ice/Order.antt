-- ===== src/Transport/Ice/Order.antt =====
-- core/lbtp/src/ice_candidate.rs: candidates come out from the highest priority to the lowest.
use lowband.Prelude.{
  ℕ, zero, suc, ◌+◌, ◌-◌, ◌*◌, ◌%◌, ◌^◌, ◌≤◌, ◌<◌, ◌≡◌, refl, ap, ◌∙◌, arith, List, [], ◌∷◌, ◌++◌,
  length, append_assoc,
}
use lowband.Transport.Ice.{
  SocketAddr, host_type_preference, ice_priority, IceCandidate, IceCandidateEvent, candidate_ready,
  send_stun_request, retransmit_stun, send_turn_allocate, retransmit_turn, gathering_complete,
  GatherState, idle, gathering_server_reflexive, gathering_relayed, complete, IceCandidateGatherer,
  host_events, start, on_stun_response, on_turn_allocated, tick,
}
use lowband.Transport.Ice.Rank.{ice_priority_sum}
use lowband.Transport.Ice.Runs.{Input, control_tick, stun_response, turn_allocated, step, run}

abbrev pub candidates : List IceCandidateEvent → List IceCandidate
candidates [] = []
candidates (candidate_ready c ∷ es) = c ∷ candidates es
candidates (_ ∷ es) = candidates es

-- Each priority is below `limit` and the priorities before it, each foundation is at least `next`
-- and above the foundations before it.
abbrev pub Ranked : ℕ → ℕ → List IceCandidate → Type 0
Ranked limit next [] = Unit {0}
Ranked limit next (c ∷ cs) =
    (c.priority < limit) × (next ≤ c.foundation) × Ranked c.priority (c.foundation + 1) cs

candidates-append :
    (xs ys : List IceCandidateEvent) → candidates (xs ++ ys) ≡ candidates xs ++ candidates ys
candidates-append [] ys = refl
candidates-append (candidate_ready c ∷ xs) ys = ap (λ l. c ∷ l) (candidates-append xs ys)
candidates-append (send_stun_request ∷ xs) ys = candidates-append xs ys
candidates-append (retransmit_stun ∷ xs) ys = candidates-append xs ys
candidates-append (send_turn_allocate ∷ xs) ys = candidates-append xs ys
candidates-append (retransmit_turn ∷ xs) ys = candidates-append xs ys
candidates-append (gathering_complete ∷ xs) ys = candidates-append xs ys

Ranked-weaken :
    (limit limit' next next' : ℕ) (cs : List IceCandidate)
    → limit ≤ limit'
    → next' ≤ next
    → Ranked limit next cs
    → Ranked limit' next' cs
Ranked-weaken limit limit' next next' [] h g r = tt
Ranked-weaken limit limit' next next' (c ∷ cs) h g (below, above, r) =
    (omega (arith, h, below), omega (arith, g, above), r)

-- What a state can still bring, and how many foundations that takes.
limit_of : GatherState → ℕ
limit_of idle = 0
limit_of (gathering_server_reflexive _ _) = host_type_preference * 2 ^ 24
limit_of (gathering_relayed _ _) = 100 * 2 ^ 24
limit_of complete = 0

coming : GatherState → ℕ
coming idle = 0
coming (gathering_server_reflexive _ _) = 2
coming (gathering_relayed _ _) = 1
coming complete = 0

-- A call brings at most one candidate, and leaves room for those that come.
record Brings (s : GatherState) (f : ℕ) (next : IceCandidateGatherer) (cs : List IceCandidate)
    : Type 0 where
  room : next.next_foundation + coming next.state < 2 ^ 32
  ranked :
      (rest : List IceCandidate)
      → Ranked (limit_of next.state) next.next_foundation rest
      → Ranked (limit_of s) f (cs ++ rest)

step-Brings :
    (s : GatherState) (f : ℕ) (i : Input)
    → f + coming s < 2 ^ 32
    → let (next, events) = step (record { state = s; next_foundation = f }) i in
      Brings s f next (candidates events)
unfolding tick on_stun_response on_turn_allocated limit_of coming
step-Brings idle f control_tick h = record { room = omega (arith, h); ranked = (λ rest k. k) }
step-Brings complete f control_tick h = record { room = omega (arith, h); ranked = (λ rest k. k) }
step-Brings (gathering_server_reflexive r (suc t)) f control_tick h = record {
  room = omega (arith, h);
  ranked = (λ rest k. k);
}
step-Brings (gathering_server_reflexive zero zero) f control_tick h = record {
  room = omega (arith, h);
  ranked = (λ rest k.
      Ranked-weaken (100 * 2 ^ 24) (126 * 2 ^ 24) f f rest (omega arith) (omega arith) k);
}
step-Brings (gathering_server_reflexive (suc r) zero) f control_tick h = record {
  room = omega (arith, h);
  ranked = (λ rest k. k);
}
step-Brings (gathering_relayed r (suc t)) f control_tick h = record {
  room = omega (arith, h);
  ranked = (λ rest k. k);
}
step-Brings (gathering_relayed zero zero) f control_tick h = record {
  room = omega (arith, h);
  ranked = (λ rest k. Ranked-weaken (0) (100 * 2 ^ 24) f f rest (omega arith) (omega arith) k);
}
step-Brings (gathering_relayed (suc r) zero) f control_tick h = record {
  room = omega (arith, h);
  ranked = (λ rest k. k);
}
step-Brings idle f (stun_response addr) h = record {
  room = omega (arith, h);
  ranked = (λ rest k. k);
}
step-Brings complete f (stun_response addr) h = record {
  room = omega (arith, h);
  ranked = (λ rest k. k);
}
step-Brings idle f (turn_allocated addr) h = record {
  room = omega (arith, h);
  ranked = (λ rest k. k);
}
step-Brings complete f (turn_allocated addr) h = record {
  room = omega (arith, h);
  ranked = (λ rest k. k);
}
step-Brings (gathering_server_reflexive r t) f (turn_allocated addr) h = record {
  room = omega (arith, h);
  ranked = (λ rest k. k);
}
step-Brings (gathering_relayed r t) f (stun_response addr) h = record {
  room = omega (arith, h);
  ranked = (λ rest k. k);
}
step-Brings (gathering_server_reflexive r t) f (stun_response addr) h =
    let p = ice_priority_sum 100 65535 (omega arith) (omega arith) in
    let next : (f + 1) % 2 ^ 32 ≡ f + 1 = omega (arith, h) in
    record {
      room = (omega (arith, h));
      ranked = (λ rest k. (
        omega (arith, p),
        omega arith,
        Ranked-weaken (100 * 2 ^ 24) (ice_priority 100 65535) ((f + 1) % 2 ^ 32) (f + 1) rest
            (omega (arith, p)) (omega (arith, next)) k,
      ));
    }
step-Brings (gathering_relayed r t) f (turn_allocated addr) h =
    let p = ice_priority_sum 0 65535 (omega arith) (omega arith) in
    let next : (f + 1) % 2 ^ 32 ≡ f + 1 = omega (arith, h) in
    record {
      room = (omega (arith, h));
      ranked = (λ rest k. (
        omega (arith, p),
        omega arith,
        Ranked-weaken 0 (ice_priority 0 65535) ((f + 1) % 2 ^ 32) (f + 1) rest (omega arith)
            (omega (arith, next)) k,
      ));
    }

run-Ranked :
    (g : IceCandidateGatherer) (is : List Input)
    → g.next_foundation + coming g.state < 2 ^ 32
    → Ranked (limit_of g.state) g.next_foundation (candidates (run g is).1)
run-Ranked g [] h = tt
run-Ranked g (i ∷ is) h =
    let b = step-Brings g.state g.next_foundation i h in
    let (next, events) = step g i in
    let rest = candidates (run next is).1 in
    rw (candidates-append events (run next is).1) (b.ranked rest (run-Ranked next is b.room))

host_events-Ranked :
    (i f limit : ℕ) (hosts : List SocketAddr) (rest : List IceCandidate)
    → i + length hosts ≤ 65536
    → f + length hosts + 2 < 2 ^ 32
    → 126 * 2 ^ 24 + (65536 - i) * 2 ^ 8 ≤ limit
    → let (events, next) = host_events i f hosts in
      (next ≡ f + length hosts)
      × (Ranked (126 * 2 ^ 24) next rest → Ranked limit f (candidates events ++ rest))
unfolding host_events
host_events-Ranked i f limit [] rest few room below = (
  omega arith,
  λ k. Ranked-weaken (126 * 2 ^ 24) limit f f rest (omega (arith, below)) (omega arith) k,
)
host_events-Ranked i f limit (addr ∷ hosts) rest few room below =
    let index : i % 2 ^ 32 ≡ i = omega (arith, few) in
    let next : (f + 1) % 2 ^ 32 ≡ f + 1 = omega (arith, room) in
    let pref = 65535 - i % 2 ^ 32 in
    let p = ice_priority_sum 126 pref (omega arith) (omega arith) in
    let (count, ranked) =
      host_events-Ranked (suc i) ((f + 1) % 2 ^ 32) (ice_priority 126 pref) hosts rest
        (omega (arith, few)) (omega (arith, room, next)) (omega (arith, p, index, few)) in
    (
      omega (arith, count, next),
      λ k. (
        omega (arith, p, below, index, few),
        omega arith,
        Ranked-weaken (ice_priority 126 pref) (ice_priority 126 pref) ((f + 1) % 2 ^ 32) (f + 1)
            (candidates (host_events (suc i) ((f + 1) % 2 ^ 32) hosts).0 ++ rest) (omega arith)
            (omega (arith, next)) (ranked k),
      ),
    )

start_room :
    (g : IceCandidateGatherer) (hosts : List SocketAddr)
    → let (first, events) = start g hosts in
      (first.next_foundation ≡ (host_events 0 g.next_foundation hosts).1)
      × (limit_of first.state ≡ 126 * 2 ^ 24)
      × (coming first.state ≡ 2)
      × (events ≡ (host_events 0 g.next_foundation hosts).0 ++ (send_stun_request ∷ []))
unfolding start limit_of coming
start_room g hosts = (refl, refl, refl, refl)

-- What a start and the calls behind it bring, in order: every candidate has a lower priority than the
-- one before it, below 127 * 2^24, and a foundation above all earlier ones, whatever ticks and
-- responses follow the start. There are at most 65536 host addresses, and the foundations are not
-- used up.
pub start-Ranked :
    (g : IceCandidateGatherer) (hosts : List SocketAddr) (is : List Input)
    → length hosts ≤ 65536
    → g.next_foundation + length hosts + 2 < 2 ^ 32
    → let (first, events) = start g hosts in
      Ranked (127 * 2 ^ 24) g.next_foundation (candidates (events ++ (run first is).1))
start-Ranked g hosts is few room =
    let first = (start g hosts).0 in
    let host = (host_events 0 g.next_foundation hosts).0 in
    let (f, limit, two, events) = start_room g hosts in
    let later = (run first is).1 in
    let (count, ranked) =
      host_events-Ranked 0 g.next_foundation (127 * 2 ^ 24) hosts (candidates later)
        (omega (arith, few)) room (omega arith) in
    let rest = run-Ranked first is (omega (arith, f, two, count, room)) in
    let split : candidates ((start g hosts).1 ++ later) ≡ candidates host ++ candidates later =
      ap (λ l. candidates (l ++ later)) events
      ∙ ap candidates (append_assoc host (send_stun_request ∷ []) later)
      ∙ candidates-append host (send_stun_request ∷ later) in
    rw split (ranked (rw (limit, f) at rest))
