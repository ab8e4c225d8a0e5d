-- ===== src/Governor/Tests.antt =====
-- core/platform: runs of the governor, and the theorems at concrete inputs.
use lowband.Prelude.{ℕ, ◌+◌, ◌≤◌, ◌<◌, ◌≡◌, refl, arith, false, List, ◌∷◌, max, replicate}
use lowband.Prelude.Float.{whole}
use lowband.Governor.Tier.{
  survival, rank, GovernorTierEmitter, new_emitter, emitter_tick, upgrade_hold_ticks,
}
use lowband.Governor.Tier.Moves.{floor_of}
use lowband.Governor.Tier.Hold
use lowband.Governor.Tier.Hold.{Sustained, start_at, raise-Sustained, Sustained-raise}
use lowband.Governor.Gears.{
  ThermalPressure, nominal, fair, serious, critical, capable, GearConstraints, audio_floor_bps,
  from_thermal, from_thermal_with_capability_cpu_and_npu, camera_allowed,
}
use lowband.Governor.Budget.{allocate}
use lowband.Governor.Budget.Priority.{
  total_of, StrictPriority, allocate-total, allocate-StrictPriority,
}
use lowband.Governor.ControlLoop.{ControlLoopInput, new, tick}
use lowband.Governor.ControlLoop.Session.{estimates, tick_contract, run-Sustained}
use lowband.Governor.ControlLoop.Session

abbrev almost : GovernorTierEmitter
almost = record { upgrade_guard = record { hold_ticks = 49 } }

abbrev steady : ℕ → List ℕ
steady n = replicate n 70_000

raised :
    rank (Hold.run (start_at survival) (steady 49)).tier
    < rank (Hold.run (start_at survival) (70_000 ∷ steady 49)).tier
unfolding Hold.run emitter_tick new_emitter
raised = omega arith

raise-Sustained_example :
    Sustained
      (floor_of (Hold.run (start_at survival) (70_000 ∷ steady 49)).tier)
      upgrade_hold_ticks
      (70_000 ∷ steady 49)
raise-Sustained_example = raise-Sustained survival 70_000 (steady 49) raised

abbrev warm : ThermalPressure → GearConstraints
warm p = from_thermal_with_capability_cpu_and_npu whole p capable 60 false

allocate-total_example :
    (6_000 ≤ (allocate 4_000 (from_thermal fair)).audio_bps)
    × (total_of (allocate 4_000 (from_thermal fair)) ≡ 6_000)
unfolding from_thermal
allocate-total_example = allocate-total 4_000 (from_thermal fair)

-- The critical level leaves bulk transfer what the camera and the refinement do not get.
critical_transfer : (allocate 400_000 (from_thermal critical)).xfer_bps ≡ 348_000
unfolding allocate from_thermal camera_allowed
critical_transfer = refl

-- Input is funded behind 24 kbps of audio, beyond its floor and before the coarse screen.
tight_link :
    ((allocate 24_000 (from_thermal nominal)).input_bps ≡ 0)
    × ((allocate 30_000 (from_thermal nominal)).input_bps ≡ 6_000)
    × ((allocate 30_000 (from_thermal nominal)).screen_coarse_bps ≡ 0)
unfolding allocate from_thermal
tight_link = (refl, refl, refl)

allocate-StrictPriority_example :
    StrictPriority (from_thermal serious) (allocate 150_000 (from_thermal serious))
allocate-StrictPriority_example = allocate-StrictPriority 150_000 (from_thermal serious)

abbrev good_link : ControlLoopInput
good_link = record { bwe_bps = 70_000; rtt_ms = 80; loss_ppm = 0; thermal = nominal }

tick_contract_example :
    (rank (tick new good_link).1.tier ≤ rank new.current_tier + 1)
    × (rank new.current_tier ≤ rank (tick new good_link).1.tier + 1)
    × ((tick new good_link).0.current_tier ≡ (tick new good_link).1.tier)
    × ((tick new good_link).1.summary.tier ≡ (tick new good_link).1.tier)
    × (audio_floor_bps ≤ (tick new good_link).1.budgets.audio_bps)
    × (total_of (tick new good_link).1.budgets ≡ max good_link.bwe_bps audio_floor_bps)
tick_contract_example = tick_contract new good_link

session_raised :
    rank (Session.run (replicate 49 good_link)).current_tier
    < rank (Session.run (good_link ∷ replicate 49 good_link)).current_tier
unfolding Session.run tick new emitter_tick
session_raised = omega arith

run-Sustained_example :
    Sustained
      (floor_of (Session.run (good_link ∷ replicate 49 good_link)).current_tier)
      upgrade_hold_ticks
      (estimates (good_link ∷ replicate 49 good_link))
run-Sustained_example = run-Sustained good_link (replicate 49 good_link) session_raised
