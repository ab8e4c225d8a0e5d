-- ===== src/Governor/Convergence/Tests.antt =====
-- core/platform/src/governor_summary.rs: two peers that converge.
use lowband.Prelude.{◌≤◌, ◌≡◌, true, false, ◌⊎◌}
use lowband.Governor.Tier.{survival, comfortable, rank}
use lowband.Governor.Gears.{GearConstraints, nominal, from_thermal}
use lowband.Governor.Budget.{allocate}
use lowband.Governor.ControlLoop.{GovernorSummary}
use lowband.Governor.Convergence.{
  ConvergedSummary, converge_summaries, bulk_xfer_headroom_bps, bulk_xfer_frozen,
}
use lowband.Governor.Convergence.Weaker.{converge_summaries_comm}

abbrev weak : GovernorSummary
weak = record { tier = survival; bwe_bps = 40_000; rtt_ms = 180; loss_ppm = 20_000 }

abbrev strong : GovernorSummary
strong = record { tier = comfortable; bwe_bps = 150_000; rtt_ms = 80; loss_ppm = 5_000 }

abbrev cool : GearConstraints
cool = from_thermal nominal

abbrev both : ConvergedSummary
both = converge_summaries weak strong

converge_summaries_comm_example :
    (both ≡ converge_summaries strong weak)
    × (rank both.tier ≤ rank survival)
    × (both.bwe_bps ≤ 40_000)
    × ((allocate both.bwe_bps cool).audio_bps ≤ (allocate 40_000 cool).audio_bps)
    × ((allocate both.bwe_bps cool).input_bps ≤ (allocate 40_000 cool).input_bps)
    × ((allocate both.bwe_bps cool).screen_coarse_bps ≤ (allocate 40_000 cool).screen_coarse_bps)
    × ((allocate both.bwe_bps cool).camera_bps ≤ (allocate 40_000 cool).camera_bps)
    × ((allocate both.bwe_bps cool).screen_refinement_bps
        ≤ (allocate 40_000 cool).screen_refinement_bps)
    × ((allocate both.bwe_bps cool).xfer_bps ≤ (allocate 40_000 cool).xfer_bps)
    × ((bulk_xfer_frozen survival ≡ false)
        ⊎ ((bulk_xfer_headroom_bps both.tier 9_000 ≡ 0) × (bulk_xfer_frozen both.tier ≡ true)))
converge_summaries_comm_example = converge_summaries_comm weak strong cool 9_000
