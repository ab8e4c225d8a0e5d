-- ===== src/Governor/ControlLoop/Session.antt =====
-- core/platform/src/control_loop.rs: one interval, and a session of intervals.
use lowband.Prelude.{ℕ, ◌+◌, ◌≤◌, ◌<◌, ◌≡◌, refl, ap, arith, List, [], ◌∷◌, map, max}
use lowband.Governor.Tier.{
  TierState, survival, constrained, comfortable, full, rank, upgrade_hold_ticks, emitter_tick,
}
use lowband.Governor.Tier.Moves.{floor_of}
use lowband.Governor.Tier.Hold
use lowband.Governor.Tier.Hold.{Governed, Sustained, Sustained-eq, start_at, raise-Sustained}
use lowband.Governor.Gears.{audio_floor_bps, from_thermal}
use lowband.Governor.Budget.Priority.{total_of, allocate-total}
use lowband.Governor.ControlLoop.{ControlLoopInput, ControlLoop, new, tick}

one_step :
    (l : ControlLoop) (bwe : ℕ)
    → (rank (emitter_tick l.emitter l.current_tier bwe).1 ≤ rank l.current_tier + 1)
      × (rank l.current_tier ≤ rank (emitter_tick l.emitter l.current_tier bwe).1 + 1)
unfolding emitter_tick
one_step l bwe = go l.current_tier refl
  where
    go :
        (t : TierState)
        → l.current_tier ≡ t
        → (rank (emitter_tick l.emitter l.current_tier bwe).1 ≤ rank l.current_tier + 1)
          × (rank l.current_tier ≤ rank (emitter_tick l.emitter l.current_tier bwe).1 + 1)
    go survival e = ground arith
    go constrained e = ground arith
    go comfortable e = ground arith
    go full e = ground arith

-- Every interval, in any state and at any thermal level: the tier moves by one step at most, and the one
-- emitted is the one fed back and reported; voice gets its 6 kbps at least, and the budgets add up to the
-- estimate, or to the voice floor where the estimate is below it.
pub tick_contract :
    (l : ControlLoop) (i : ControlLoopInput)
    → (rank (tick l i).1.tier ≤ rank l.current_tier + 1)
      × (rank l.current_tier ≤ rank (tick l i).1.tier + 1)
      × ((tick l i).0.current_tier ≡ (tick l i).1.tier)
      × ((tick l i).1.summary.tier ≡ (tick l i).1.tier)
      × (audio_floor_bps ≤ (tick l i).1.budgets.audio_bps)
      × (total_of (tick l i).1.budgets ≡ max i.bwe_bps audio_floor_bps)
unfolding tick from_thermal
tick_contract l i =
    let (up, down) = one_step l i.bwe_bps in
    let (voice, total) = allocate-total i.bwe_bps (from_thermal i.thermal) in
    (up, down, refl, refl, voice, total)

-- A session: its inputs, the newest first.
unfoldable pub run : List ControlLoopInput → ControlLoop
run [] = new
run (i ∷ past) = (tick (run past) i).0

abbrev pub estimates : List ControlLoopInput → List ℕ
estimates = map (λ i. i.bwe_bps)

run-Governed :
    (past : List ControlLoopInput)
    → record { emitter = (run past).emitter; tier = (run past).current_tier }
      ≡ Hold.run (start_at survival) (estimates past)
unfolding run new tick Hold.run
run-Governed [] = refl
run-Governed (i ∷ past) = ap (λ g. Hold.advance g i.bwe_bps) (run-Governed past)

-- Over a whole session from its start: an interval that raises the tier ends fifty in a row whose
-- estimates all reached the floor of the new tier.
pub run-Sustained :
    (i : ControlLoopInput) (past : List ControlLoopInput)
    → rank (run past).current_tier < rank (run (i ∷ past)).current_tier
    → Sustained (floor_of (run (i ∷ past)).current_tier) upgrade_hold_ticks (estimates (i ∷ past))
run-Sustained i past h =
    let before : (run past).current_tier ≡ (Hold.run (start_at survival) (estimates past)).tier =
      ap (λ (g : Governed). g.tier) (run-Governed past) in
    let after : (run (i ∷ past)).current_tier
        ≡ (Hold.run (start_at survival) (estimates (i ∷ past))).tier =
      ap (λ (g : Governed). g.tier) (run-Governed (i ∷ past)) in
    Sustained-eq {n = upgrade_hold_ticks} (estimates (i ∷ past)) (ap floor_of after) refl
      (raise-Sustained survival i.bwe_bps (estimates past) (rw (← before, ← after) h))
