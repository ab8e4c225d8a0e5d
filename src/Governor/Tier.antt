-- ===== src/Governor/Tier.antt =====
-- core/platform/src/tier.rs, tier_downgrade_guard.rs, tier_upgrade_guard.rs, tier_classifier.rs: the
-- quality tier, lowered at once when the bandwidth estimate collapses and raised after a hold.
pub mod Moves
pub mod Hold
use lowband.Prelude.{
  ℕ, ◌+◌, ◌*◌, ◌/◌, Bool, true, false, Option, none, some, ltb, leb, if◌then◌else◌,
}

pub data TierState : Type 0 where
  survival constrained comfortable full : TierState

-- The declaration order, by which the derived `Ord` compares.
abbrev pub rank : TierState → ℕ
rank survival = 0
rank constrained = 1
rank comfortable = 2
rank full = 3

pub cpu_ceiling_active : TierState → Bool
cpu_ceiling_active constrained = true
cpu_ceiling_active survival = true
cpu_ceiling_active _ = false

abbrev pub constrained_floor_bps : ℕ
constrained_floor_bps = 64_000

abbrev pub comfortable_floor_bps : ℕ
comfortable_floor_bps = 128_000

abbrev pub full_floor_bps : ℕ
full_floor_bps = 256_000

abbrev pub tier_floor_bps : TierState → Option ℕ
tier_floor_bps survival = none
tier_floor_bps constrained = some constrained_floor_bps
tier_floor_bps comfortable = some comfortable_floor_bps
tier_floor_bps full = some full_floor_bps

abbrev map_trigger : Option ℕ → Option ℕ
map_trigger none = none
map_trigger (some floor) = some (floor * 4 / 5)

pub downgrade_trigger_bps : TierState → Option ℕ
downgrade_trigger_bps tier = map_trigger (tier_floor_bps tier)

abbrev pub tier_step_down : TierState → TierState
tier_step_down full = comfortable
tier_step_down comfortable = constrained
tier_step_down constrained = survival
tier_step_down survival = survival

-- `TierDowngradeGuard` has no fields.
pub downgrade_observe : TierState → ℕ → TierState
unfolding downgrade_trigger_bps
downgrade_observe current bwe = elim (downgrade_trigger_bps current) [
  | none ↦ current
  | some trigger ↦ if ltb bwe trigger then tier_step_down current else current
]

abbrev pub upgrade_hold_ticks : ℕ
upgrade_hold_ticks = 50

pub record TierUpgradeGuard : Type 0 where
  pub hold_ticks : ℕ

unfoldable pub new_upgrade_guard : TierUpgradeGuard
new_upgrade_guard = record { hold_ticks = 0 }

abbrev pub tier_step_up : TierState → Option TierState
tier_step_up survival = some constrained
tier_step_up constrained = some comfortable
tier_step_up comfortable = some full
tier_step_up full = none

pub upgrade_observe : TierUpgradeGuard → TierState → TierState → TierUpgradeGuard × TierState
upgrade_observe g current candidate = elim (tier_step_up current) [
  | none ↦ (record { hold_ticks = 0 }, current)
  | some next_tier ↦
      if leb (rank next_tier) (rank candidate)
      then (if leb upgrade_hold_ticks (g.hold_ticks + 1)
          then (record { hold_ticks = 0 }, next_tier)
          else (record { hold_ticks = g.hold_ticks + 1 }, current))
      else (record { hold_ticks = 0 }, current)
]

pub classify_bwe_tier : ℕ → TierState
classify_bwe_tier bwe =
    if leb full_floor_bps bwe
    then full
    else if leb comfortable_floor_bps bwe
    then comfortable
    else if leb constrained_floor_bps bwe
    then constrained
    else survival

pub record GovernorTierEmitter : Type 0 where
  pub upgrade_guard : TierUpgradeGuard

unfoldable pub new_emitter : GovernorTierEmitter
unfolding new_upgrade_guard
new_emitter = record { upgrade_guard = new_upgrade_guard }

-- `GovernorTierEmitter::tick`
unfoldable pub emitter_tick : GovernorTierEmitter → TierState → ℕ → GovernorTierEmitter × TierState
unfolding downgrade_observe upgrade_observe classify_bwe_tier new_upgrade_guard
emitter_tick e current bwe =
    let candidate = classify_bwe_tier bwe in
    let after_downgrade = downgrade_observe current bwe in
    if ltb (rank after_downgrade) (rank current)
    then (record { upgrade_guard = new_upgrade_guard }, after_downgrade)
    else (let (guard, tier) = upgrade_observe e.upgrade_guard current candidate in
        (record { upgrade_guard = guard }, tier))
