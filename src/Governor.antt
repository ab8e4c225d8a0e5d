-- ===== src/Governor.antt =====
-- The bitrate governor, core/platform: tiers, gears, budgets and the 10 Hz loop.
pub mod Tier
pub mod Gears
pub mod Budget
pub mod ControlLoop
pub mod Convergence
mod Tests
