-- ===== src/Platform/TemporalSvc.antt =====
-- core/platform/src/temporal_svc.rs: the temporal layer of each camera frame, and which layers are
-- withheld under congestion.
pub mod Reached
pub mod Hysteresis
pub mod Forwarded
mod Tests
use lowband.Prelude.{ℕ, suc, ◌+◌, ◌%◌, ◌^◌, Bool, true, false, leb, ltb, ◌==◌, if◌then◌else◌}

abbrev pub overuse_escalate_ticks : ℕ
overuse_escalate_ticks = 3

abbrev pub underuse_relax_ticks : ℕ
underuse_relax_ticks = 30

pub data TemporalSvcMode : Type 0 where
  l1t2 l1t3 : TemporalSvcMode

-- A `TemporalLayerId` is its number.
abbrev pub t0 : ℕ
t0 = 0

abbrev pub t1 : ℕ
t1 = 1

abbrev pub t2 : ℕ
t2 = 2

abbrev pub no_drop : ℕ
no_drop = 255

pub record TemporalLayerAssigner : Type 0 where
  pub mode : TemporalSvcMode
  pub frame_count : ℕ

unfoldable pub layer_for : TemporalSvcMode → ℕ → ℕ
layer_for l1t2 n = if n % 2 == 0 then t0 else t1
layer_for l1t3 n = if n % 4 == 0 then t0 else if n % 4 == 2 then t1 else t2

unfoldable pub next_layer : TemporalLayerAssigner → TemporalLayerAssigner × ℕ
next_layer a = (
  record { mode = a.mode; frame_count = (a.frame_count + 1) % 2 ^ 64 },
  layer_for a.mode a.frame_count,
)

pub record TemporalSvcController : Type 0 where
  pub assigner : TemporalLayerAssigner
  pub drop_floor : ℕ
  pub overuse_ticks : ℕ
  pub underuse_ticks : ℕ

unfoldable pub new : TemporalSvcMode → TemporalSvcController
new mode = record {
  assigner = (record { mode = mode; frame_count = 0 });
  drop_floor = no_drop;
  overuse_ticks = 0;
  underuse_ticks = 0;
}

-- The floor that `escalate` sets.
unfoldable pub escalate : TemporalSvcMode → ℕ → ℕ
escalate l1t2 floor = t1
escalate l1t3 floor = if floor == no_drop then t2 else t1

-- The floor that `relax` sets.
unfoldable pub relax : TemporalSvcMode → ℕ → ℕ
relax l1t2 floor = no_drop
relax l1t3 floor = if leb floor t1 then t2 else no_drop

unfoldable pub update : TemporalSvcController → Bool → TemporalSvcController
unfolding escalate relax
update c true =
    let ticks = c.overuse_ticks + 1 in
    if leb overuse_escalate_ticks ticks
    then record {
      assigner = c.assigner;
      drop_floor = (escalate c.assigner.mode c.drop_floor);
      overuse_ticks = 0;
      underuse_ticks = 0;
    }
    else record {
      assigner = c.assigner;
      drop_floor = c.drop_floor;
      overuse_ticks = ticks;
      underuse_ticks = 0;
    }
update c false =
    let ticks = c.underuse_ticks + 1 in
    if leb underuse_relax_ticks ticks
    then record {
      assigner = c.assigner;
      drop_floor = (relax c.assigner.mode c.drop_floor);
      overuse_ticks = 0;
      underuse_ticks = 0;
    }
    else record {
      assigner = c.assigner;
      drop_floor = c.drop_floor;
      overuse_ticks = 0;
      underuse_ticks = ticks;
    }

-- The frame's layer, and whether it is withheld.
unfoldable pub next_frame : TemporalSvcController → TemporalSvcController × ℕ × Bool
unfolding next_layer
next_frame c =
    let (assigner, layer) = next_layer c.assigner in
    (
      record {
        assigner = assigner;
        drop_floor = c.drop_floor;
        overuse_ticks = c.overuse_ticks;
        underuse_ticks = c.underuse_ticks;
      },
      layer,
      leb c.drop_floor layer,
    )

-- `active_frame_fraction` in quarters.
unfoldable pub active_frame_quarters : TemporalSvcMode → ℕ → ℕ
active_frame_quarters l1t2 floor = if leb floor t1 then 2 else 4
active_frame_quarters l1t3 floor = if leb floor t1 then 1 else if leb floor t2 then 2 else 4
