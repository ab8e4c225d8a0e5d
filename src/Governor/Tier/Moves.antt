-- ===== src/Governor/Tier/Moves.antt =====
-- core/platform/src/tier_classifier.rs: where one tick of the emitter takes the tier.
use lowband.Prelude.{ℕ, ◌+◌, ◌*◌, ◌≤◌, ◌<◌, ◌≡◌, ◌↔◌, ◌⊎◌, arith, some}
use lowband.Governor.Tier.{
  TierState, survival, constrained, comfortable, full, rank, tier_step_down, tier_step_up,
  GovernorTierEmitter, new_emitter, emitter_tick, upgrade_hold_ticks,
}

-- The floor of a tier, 0 for the lowest.
abbrev pub floor_of : TierState → ℕ
floor_of survival = 0
floor_of constrained = 64_000
floor_of comfortable = 128_000
floor_of full = 256_000

-- A tick lowers the tier exactly when the estimate is below four fifths of the tier's floor: then it goes
-- down by one step at once and the hold for an upgrade starts anew, else it does not go down.
emitter_tick-lowers :
    (e : GovernorTierEmitter) (t : TierState) (bwe : ℕ)
    → ((5 * bwe < 4 * floor_of t)
        × (emitter_tick e t bwe ≡ (new_emitter, tier_step_down t))
        × (rank (emitter_tick e t bwe).1 < rank t))
      ⊎ ((4 * floor_of t ≤ 5 * bwe) × (rank t ≤ rank (emitter_tick e t bwe).1))
unfolding emitter_tick new_emitter
emitter_tick-lowers e survival bwe = ground arith
emitter_tick-lowers e constrained bwe = ground arith
emitter_tick-lowers e comfortable bwe = ground arith
emitter_tick-lowers e full bwe = ground arith

-- A tick raises the tier exactly when the estimate reaches the next tier's floor and the hold counter
-- stands one short of its limit; it then goes up by one step.
emitter_tick-raises :
    (e : GovernorTierEmitter) (t u : TierState) (bwe : ℕ)
    → tier_step_up t ≡ some u
    → ((rank t < rank (emitter_tick e t bwe).1)
        ↔ ((floor_of u ≤ bwe) × (upgrade_hold_ticks ≤ e.upgrade_guard.hold_ticks + 1)))
      × (rank (emitter_tick e t bwe).1 ≤ rank u)
unfolding emitter_tick
emitter_tick-raises e survival u bwe h = ground arith
emitter_tick-raises e constrained u bwe h = ground arith
emitter_tick-raises e comfortable u bwe h = ground arith
emitter_tick-raises e full u bwe h = cc
