-- ===== src/Governor/ControlLoop.antt =====
-- core/platform/src/control_loop.rs and governor_summary.rs: the governor's 10 Hz interval.
pub mod Session
use lowband.Prelude.{ℕ}
use lowband.Governor.Tier.{TierState, survival, GovernorTierEmitter, new_emitter, emitter_tick}
use lowband.Governor.Gears.{ThermalPressure, from_thermal}
use lowband.Governor.Budget.{StreamBudgets, allocate}

pub record ControlLoopInput : Type 0 where
  pub bwe_bps : ℕ
  pub rtt_ms : ℕ
  pub loss_ppm : ℕ
  pub thermal : ThermalPressure

pub record GovernorSummary : Type 0 where
  pub tier : TierState
  pub bwe_bps : ℕ
  pub rtt_ms : ℕ
  pub loss_ppm : ℕ

pub record ControlLoopOutput : Type 0 where
  pub tier : TierState
  pub budgets : StreamBudgets
  pub summary : GovernorSummary

pub record ControlLoop : Type 0 where
  pub emitter : GovernorTierEmitter
  pub current_tier : TierState

unfoldable pub new : ControlLoop
unfolding new_emitter
new = record { emitter = new_emitter; current_tier = survival }

-- `ControlLoop::tick`
unfoldable pub tick : ControlLoop → ControlLoopInput → ControlLoop × ControlLoopOutput
tick loop input =
    let (emitter, tier) = emitter_tick loop.emitter loop.current_tier input.bwe_bps in
    (
      record { emitter = emitter; current_tier = tier },
      record {
        tier = tier;
        budgets = allocate input.bwe_bps (from_thermal input.thermal);
        summary = record {
          tier = tier;
          bwe_bps = input.bwe_bps;
          rtt_ms = input.rtt_ms;
          loss_ppm = input.loss_ppm;
        };
      },
    )
