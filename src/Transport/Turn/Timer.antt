-- ===== src/Transport/Turn/Timer.antt =====
-- core/lbtp/src/turn_relay.rs: how long an allocation stays without a refresh, and a relay that does
-- not answer.
use lowband.Prelude.{
  ℕ, zero, suc, ◌+◌, ◌*◌, ◌≡◌, refl, ◌∙◌, arith, true, ◌||◌, Option, none, some, List, [], ◌∷◌, leb,
  not,
}
use lowband.Transport.Turn.{
  RelayEvent, activated, keepalive, RelayState, idle, probing, active, failed, TurnRelayController,
  new, on_direct_path_failed, on_relay_activated, on_relay_ack, on_direct_path_recovered, tick,
  is_active_state, is_failed_state, is_active, is_failed,
}

-- The calls of the controller.
pub data Input : Type 0 where
  direct_failed relay_activated relay_ack direct_recovered control_tick : Input

abbrev pub step : TurnRelayController → Input → TurnRelayController × Option RelayEvent
step c direct_failed = (on_direct_path_failed c, none)
step c relay_activated = on_relay_activated c
step c relay_ack = (on_relay_ack c, none)
step c direct_recovered = (on_direct_path_recovered c, none)
step c control_tick = tick c

-- The ticks in a row without a sign of life of the allocation: its activation, an acknowledgement, or a
-- keepalive that is sent.
abbrev pub quiet_after : ℕ → Input → Option RelayEvent → ℕ
quiet_after q control_tick none = suc q
quiet_after q control_tick (some keepalive) = 0
quiet_after q relay_activated (some activated) = 0
quiet_after q relay_ack e = 0
quiet_after q _ e = q

-- The controller after some calls, and the quiet ticks then.
abbrev pub run : TurnRelayController → ℕ → List Input → TurnRelayController × ℕ
run c q [] = (c, q)
run c q (i ∷ is) = let (next, event) = step c i in run next (quiet_after q i event) is

abbrev Kept : RelayState → ℕ → Type 0
Kept (active k) q = q + k ≡ 1200
Kept _ q = Unit {0}

step-Kept :
    (s : RelayState) (q : ℕ) (i : Input)
    → Kept s q
    → let (next, event) = step (record { state = s }) i in Kept next.state (quiet_after q i event)
unfolding tick on_direct_path_failed on_relay_activated on_relay_ack on_direct_path_recovered
step-Kept (active (suc k)) q control_tick h = omega (arith, h)
step-Kept (active zero) q control_tick h = refl
step-Kept (active k) q relay_ack h = refl
step-Kept (active k) q direct_failed h = h
step-Kept (active k) q relay_activated h = h
step-Kept (active k) q direct_recovered h = tt
step-Kept idle q direct_failed h = tt
step-Kept idle q relay_activated h = tt
step-Kept idle q relay_ack h = tt
step-Kept idle q direct_recovered h = tt
step-Kept idle q control_tick h = tt
step-Kept failed q direct_failed h = tt
step-Kept failed q relay_activated h = tt
step-Kept failed q relay_ack h = tt
step-Kept failed q direct_recovered h = tt
step-Kept failed q control_tick h = tt
step-Kept (probing r t) q direct_failed h = tt
step-Kept (probing r t) q relay_activated h = refl
step-Kept (probing r t) q relay_ack h = tt
step-Kept (probing r t) q direct_recovered h = tt
step-Kept (probing r (suc t)) q control_tick h = tt
step-Kept (probing zero zero) q control_tick h = tt
step-Kept (probing (suc r) zero) q control_tick h = tt

run-Kept :
    (c : TurnRelayController) (q : ℕ) (is : List Input)
    → Kept c.state q
    → Kept (run c q is).0.state (run c q is).1
run-Kept c q [] h = h
run-Kept c q (i ∷ is) h =
    let (next, event) = step c i in
    run-Kept next (quiet_after q i event) is (step-Kept c.state q i h)

Kept-leb : (s : RelayState) (q : ℕ) → Kept s q → (not (is_active_state s) || leb q 1200) ≡ true
Kept-leb idle q h = refl
Kept-leb (probing r t) q h = refl
Kept-leb (active k) q h = ground (arith, h)
Kept-leb failed q h = refl

new-Kept : Kept new.state 0
unfolding new
new-Kept = tt

-- After any calls in any order: while the relay is active, at most 1200 ticks in a row have passed
-- without its activation, an acknowledgement or a keepalive.
pub run-is_active :
    (is : List Input)
    → let (c, quiet) = run new 0 is in (not (is_active c) || leb quiet 1200) ≡ true
unfolding is_active
run-is_active is =
    let (c, quiet) = run new 0 is in Kept-leb c.state quiet (run-Kept new 0 is new-Kept)

-- The ticks until a probing relay is given up.
abbrev budget : RelayState → ℕ
budget (probing r t) = t + 1 + 6 * r
budget _ = 0

abbrev pub ticks : ℕ → TurnRelayController → TurnRelayController
ticks zero c = c
ticks (suc n) c = ticks n (tick c).0

abbrev InTrouble : RelayState → Type 0
InTrouble (probing r t) = Unit {0}
InTrouble failed = Unit {0}
InTrouble _ = ⊥

ticks-budget :
    (n : ℕ) (s : RelayState)
    → InTrouble s
    → is_failed_state (ticks n (record { state = s })).state ≡ leb (budget s) n
unfolding tick
ticks-budget n idle h = elim h [ ]
ticks-budget n (active k) h = elim h [ ]
ticks-budget zero failed h = refl
ticks-budget (suc n) failed h = ticks-budget n failed h ∙ ground arith
ticks-budget zero (probing r t) h = ground arith
ticks-budget (suc n) (probing r (suc t)) h = ticks-budget n (probing r t) h ∙ ground arith
ticks-budget (suc n) (probing zero zero) h = ticks-budget n failed tt ∙ ground arith
ticks-budget (suc n) (probing (suc r) zero) h = ticks-budget n (probing r 5) tt ∙ ground arith

-- When the direct path fails and the relay never answers, the relay is given up after `n` ticks if and
-- only if `n` is at least 30: five probes of six ticks each.
pub is_failed-ticks : (n : ℕ) → is_failed (ticks n (on_direct_path_failed new)) ≡ leb 30 n
unfolding is_failed on_direct_path_failed new
is_failed-ticks n = ticks-budget n (probing 4 5) tt
