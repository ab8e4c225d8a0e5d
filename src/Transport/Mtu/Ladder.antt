-- ===== src/Transport/Mtu/Ladder.antt =====
-- core/lbtp/src/mtu.rs: the controller stays on the probe ladder.
use lowband.Prelude.{
  ℕ, zero, suc, ◌+◌, ◌≤◌, ◌<◌, ◌≡◌, refl, arith, some, List, [], ◌∷◌, ◌≢◌, sym, true,
}
use lowband.Transport.Mtu.{
  PathMtuController, MtuProbeFrame, MtuState, idle, probing, complete, mtu_probe_timeout_ticks,
  mtu_probe_max_retries, start_probe, tick, on_probe_acked, tick_in, acked_in, start_in,
  is_probing_state, is_probing, mtu_raised,
}

-- The size that is confirmed once the first `idx` steps are.
abbrev pub confirmed : ℕ → ℕ
confirmed zero = 1200
confirmed (suc zero) = 1400
confirmed (suc (suc zero)) = 1452
confirmed (suc (suc (suc _))) = 1500

abbrev pub StateOnLadder : ℕ → MtuState → Type 0
StateOnLadder mtu (idle idx) = (idx < 3) × (mtu ≡ confirmed idx)
StateOnLadder mtu (probing target idx retries ticks) =
    (idx < 3)
    × (mtu ≡ confirmed idx)
    × (target ≡ confirmed (idx + 1))
    × (retries ≤ mtu_probe_max_retries)
    × (ticks ≤ mtu_probe_timeout_ticks)
StateOnLadder mtu complete = mtu ≡ 1500

-- The step pointer is inside the ladder, the path MTU is the last confirmed size, a probe is for the
-- next one, and its counters are within their limits.
abbrev pub OnLadder : PathMtuController → Type 0
OnLadder c = StateOnLadder c.path_mtu c.state

pub data Input : Type 0 where
  start tick_timer : Input
  ack : ℕ → Input

unfoldable pub step : PathMtuController → Input → PathMtuController
step c start = (start_probe c).0
step c tick_timer = (tick c).0
step c (ack mtu) = (on_probe_acked c mtu).0

unfoldable pub run : PathMtuController → List Input → PathMtuController
unfolding step
run c [] = c
run c (i ∷ is) = run (step c i) is

start_in-OnLadder :
    (s : MtuState) (c : PathMtuController)
    → c.state ≡ s
    → StateOnLadder c.path_mtu s
    → OnLadder (start_in s c).0
unfolding start_in
start_in-OnLadder (idle zero) c e v = omega arith
start_in-OnLadder (idle (suc zero)) c e v = omega arith
start_in-OnLadder (idle (suc (suc zero))) c e v = omega arith
start_in-OnLadder (idle (suc (suc (suc i)))) c e v = absurd (omega arith)
start_in-OnLadder (probing target zero retries ticks) c e v = omega arith
start_in-OnLadder (probing target (suc zero) retries ticks) c e v = omega arith
start_in-OnLadder (probing target (suc (suc zero)) retries ticks) c e v = omega arith
start_in-OnLadder (probing target (suc (suc (suc i))) retries ticks) c e v = absurd (omega arith)
start_in-OnLadder complete c e v = rw e v

tick_in-OnLadder :
    (s : MtuState) (c : PathMtuController)
    → c.state ≡ s
    → StateOnLadder c.path_mtu s
    → OnLadder (tick_in s c).0
unfolding tick_in
tick_in-OnLadder (idle idx) c e v = rw e v
tick_in-OnLadder (probing target idx zero zero) c e v = omega arith
tick_in-OnLadder (probing target idx (suc retries) zero) c e v = omega arith
tick_in-OnLadder (probing target idx retries (suc ticks)) c e v = omega arith
tick_in-OnLadder complete c e v = rw e v

acked_in-OnLadder :
    (s : MtuState) (c : PathMtuController) (acked : ℕ)
    → c.state ≡ s
    → StateOnLadder c.path_mtu s
    → OnLadder (acked_in s c acked).0
unfolding acked_in
acked_in-OnLadder (idle idx) c acked e v = rw e v
acked_in-OnLadder (probing target zero retries ticks) c acked e v = ground arith
acked_in-OnLadder (probing target (suc zero) retries ticks) c acked e v = ground arith
acked_in-OnLadder (probing target (suc (suc zero)) retries ticks) c acked e v = ground arith
acked_in-OnLadder (probing target (suc (suc (suc i))) retries ticks) c acked e v =
    absurd (omega arith)
acked_in-OnLadder complete c acked e v = rw e v

step-OnLadder : (c : PathMtuController) (i : Input) → OnLadder c → OnLadder (step c i)
unfolding step start_probe tick on_probe_acked
step-OnLadder c start v = start_in-OnLadder c.state c refl v
step-OnLadder c tick_timer v = tick_in-OnLadder c.state c refl v
step-OnLadder c (ack mtu) v = acked_in-OnLadder c.state c mtu refl v

start_in-path_mtu : (s : MtuState) (c : PathMtuController) → (start_in s c).0.path_mtu ≡ c.path_mtu
unfolding start_in
start_in-path_mtu (idle idx) c = ground arith
start_in-path_mtu (probing target idx retries ticks) c = ground arith
start_in-path_mtu complete c = refl

tick_in-path_mtu : (s : MtuState) (c : PathMtuController) → (tick_in s c).0.path_mtu ≡ c.path_mtu
unfolding tick_in
tick_in-path_mtu (idle idx) c = refl
tick_in-path_mtu (probing target idx zero zero) c = refl
tick_in-path_mtu (probing target idx (suc retries) zero) c = refl
tick_in-path_mtu (probing target idx retries (suc ticks)) c = refl
tick_in-path_mtu complete c = refl

acked_in_mono :
    (s : MtuState) (c : PathMtuController) (acked : ℕ)
    → StateOnLadder c.path_mtu s
    → c.path_mtu ≤ (acked_in s c acked).0.path_mtu
unfolding acked_in
acked_in_mono (idle idx) c acked v = omega arith
acked_in_mono (probing target zero retries ticks) c acked v = ground arith
acked_in_mono (probing target (suc zero) retries ticks) c acked v = ground arith
acked_in_mono (probing target (suc (suc zero)) retries ticks) c acked v = ground arith
acked_in_mono (probing target (suc (suc (suc i))) retries ticks) c acked v = absurd (omega arith)
acked_in_mono complete c acked v = omega arith

step_mono : (c : PathMtuController) (i : Input) → OnLadder c → c.path_mtu ≤ (step c i).path_mtu
unfolding step start_probe tick on_probe_acked
step_mono c start v = omega (arith, start_in-path_mtu c.state c)
step_mono c tick_timer v = omega (arith, tick_in-path_mtu c.state c)
step_mono c (ack mtu) v = acked_in_mono c.state c mtu v

-- Whatever probes, ticks and acknowledgements follow one another, a controller on the ladder stays on
-- it, and its path MTU never falls.
run-OnLadder :
    (c : PathMtuController) (is : List Input)
    → OnLadder c
    → OnLadder (run c is) × (c.path_mtu ≤ (run c is).path_mtu)
unfolding run
run-OnLadder c [] v = (v, omega arith)
run-OnLadder c (i ∷ is) v =
    let (on, grown) = run-OnLadder (step c i) is (step-OnLadder c i v) in
    (on, omega (arith, step_mono c i v))

acked_in-raises :
    (s : MtuState) (c : PathMtuController) (acked : ℕ)
    → c.path_mtu ≢ (acked_in s c acked).0.path_mtu
    → ((acked_in s c acked).0.path_mtu ≡ acked)
      × ((acked_in s c acked).1 ≡ some (mtu_raised acked))
      × (is_probing_state s ≡ true)
unfolding acked_in is_probing_state
acked_in-raises (idle idx) c acked h = absurd (h refl)
acked_in-raises (probing target idx retries ticks) c acked h = ground arith
acked_in-raises complete c acked h = absurd (h refl)

-- The path MTU changes only when a probe is in flight and an acknowledgement raises it to the size it
-- names, which the event reports. No other input changes it.
step_raises :
    (c : PathMtuController) (i : Input)
    → c.path_mtu ≢ (step c i).path_mtu
    → (acked : ℕ) × (i ≡ ack acked)
      × ((step c i).path_mtu ≡ acked)
      × ((on_probe_acked c acked).1 ≡ some (mtu_raised acked))
      × (is_probing c ≡ true)
unfolding step start_probe tick on_probe_acked is_probing
step_raises c start h = absurd (h (sym (start_in-path_mtu c.state c)))
step_raises c tick_timer h = absurd (h (sym (tick_in-path_mtu c.state c)))
step_raises c (ack mtu) h =
    let (size, event, active) = acked_in-raises c.state c mtu h in (mtu, refl, size, event, active)

start_in-size :
    (s : MtuState) (c : PathMtuController) (probe : MtuProbeFrame)
    → (start_in s c).1 ≡ some probe
    → 1381 ≤ probe.payload_bytes
unfolding start_in
start_in-size (idle zero) c probe e = ground arith
start_in-size (idle (suc zero)) c probe e = ground arith
start_in-size (idle (suc (suc zero))) c probe e = ground arith
start_in-size (idle (suc (suc (suc i)))) c probe e = cc
start_in-size (probing target zero retries ticks) c probe e = ground arith
start_in-size (probing target (suc zero) retries ticks) c probe e = ground arith
start_in-size (probing target (suc (suc zero)) retries ticks) c probe e = ground arith
start_in-size (probing target (suc (suc (suc i))) retries ticks) c probe e = cc
start_in-size complete c probe e = cc

-- The padding of a probe is 1381 bytes at least.
pub start_probe-size :
    (c : PathMtuController) (probe : MtuProbeFrame)
    → (start_probe c).1 ≡ some probe
    → 1381 ≤ probe.payload_bytes
unfolding start_probe
start_probe-size c probe e = start_in-size c.state c probe e
