-- ===== src/Governor/Convergence.antt =====
-- core/platform/src/governor_summary.rs and core/platform/src/governor_load_shed.rs: both peers run at
-- the weaker one's estimate, and bulk transfer is frozen at the lowest tier.
pub mod Weaker
mod Tests
use lowband.Prelude.{ℕ, Bool, true, false, ltb, if◌then◌else◌, min, max}
use lowband.Governor.Tier.{TierState, survival, constrained, comfortable, full, rank}
use lowband.Governor.ControlLoop.{GovernorSummary}

pub record ConvergedSummary : Type 0 where
  pub tier : TierState
  pub bwe_bps : ℕ
  pub rtt_ms : ℕ
  pub loss_ppm : ℕ

-- `Ord::min` of the derived order.
unfoldable pub min_tier : TierState → TierState → TierState
min_tier a b = if ltb (rank b) (rank a) then b else a

unfoldable pub converge_summaries : GovernorSummary → GovernorSummary → ConvergedSummary
unfolding min_tier
converge_summaries here there = record {
  tier = min_tier here.tier there.tier;
  bwe_bps = min here.bwe_bps there.bwe_bps;
  rtt_ms = max here.rtt_ms there.rtt_ms;
  loss_ppm = max here.loss_ppm there.loss_ppm;
}

unfoldable pub bulk_xfer_headroom_bps : TierState → ℕ → ℕ
bulk_xfer_headroom_bps survival proposed = 0
bulk_xfer_headroom_bps _ proposed = proposed

unfoldable pub bulk_xfer_frozen : TierState → Bool
bulk_xfer_frozen survival = true
bulk_xfer_frozen _ = false
