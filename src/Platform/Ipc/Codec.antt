-- ===== src/Platform/Ipc/Codec.antt =====
-- core/platform/src/ipc.rs: the frames of events, written with the third-party `FlatBufferBuilder`,
-- which is a parameter, and read with `FbTable`.
mod Readers
pub mod RoundTrip
pub mod Malformed
pub mod Overrun
use lowband.Prelude.{
  ℕ, ◌+◌, ◌*◌, ◌%◌, ◌^◌, Option, none, some, List, [], ◌∷◌, ◌++◌, length, ◌==◌, if◌then◌else◌,
}
use lowband.Prelude.Signed.{pos}
use lowband.Messaging.Bytes.{to_le_bytes}
use lowband.Governor.Tier.{TierState}
use lowband.Governor.Gears.{ThermalPressure, GearConstraints, audio_floor_bps}
use lowband.Governor.Budget.{StreamBudgets, select_resolution}
use lowband.Platform.Ipc.{
  kind_tier, kind_budget, kind_gear, kind_elev_req, kind_elev_resp, kind_panic, EscalationReason,
  ElevationOutcome, IpcEvent, tier_update, stream_budget, gear_update, elevation_requested,
  elevation_response, panic_fired, tier_to_u8, tier_from_u8, thermal_to_u8, thermal_from_u8,
  camera_gear_to_pair, camera_gear_from_pair, av1_cap_to_u8, av1_cap_from_u8, reason_to_u8,
  reason_from_u8, outcome_to_u8, outcome_from_u8, bool_to_u8,
}
use lowband.Platform.Ipc.Table.{
  Outcome, panics, returns, ◌>>=◌, FbTable, from_bytes, u8_at, u32_at, f32_at, bool_at,
}

-- The offset of a table's nth field in its vtable.
abbrev pub voff : ℕ → ℕ
voff n = 4 + 2 * n

-- A value that `push_slot` is given. Its default is zero everywhere.
pub data Scalar : Type 0 where
  u8 u32 f32 : ℕ → Scalar

pub record Slot : Type 0 where
  pub offset : ℕ
  pub value : Scalar

abbrev push_slot : ℕ → Scalar → Slot
push_slot offset value = record { offset = offset; value = value }

-- What each `encode_…` pushes.
unfoldable pub tier_slots : TierState → ℕ → ThermalPressure → List Slot
tier_slots tier cpu_percent thermal =
    push_slot (voff 0) (u8 (tier_to_u8 tier))
    ∷ push_slot (voff 1) (f32 cpu_percent)
    ∷ push_slot (voff 2) (u8 (thermal_to_u8 thermal))
    ∷ []

unfoldable pub budget_slots : StreamBudgets → ℕ → ℕ → List Slot
budget_slots budgets rtt_ms loss_pct =
    push_slot (voff 0) (u32 budgets.audio_bps)
    ∷ push_slot (voff 1) (u32 budgets.input_bps)
    ∷ push_slot (voff 2) (u32 budgets.screen_coarse_bps)
    ∷ push_slot (voff 3) (u32 budgets.camera_bps)
    ∷ push_slot (voff 4) (u32 budgets.screen_refinement_bps)
    ∷ push_slot (voff 5) (u32 budgets.xfer_bps)
    ∷ push_slot (voff 6) (u32 rtt_ms)
    ∷ push_slot (voff 7) (f32 loss_pct)
    ∷ []

unfoldable pub gear_slots : GearConstraints → List Slot
gear_slots c =
    let (cam_kind, svt_preset) = camera_gear_to_pair c.max_camera_gear in
    push_slot (voff 0) (u8 cam_kind)
    ∷ push_slot (voff 1) (u8 svt_preset)
    ∷ push_slot (voff 2) (u8 (bool_to_u8 c.screen_refinement_allowed))
    ∷ push_slot (voff 3) (u8 (thermal_to_u8 c.thermal_level))
    ∷ push_slot (voff 4) (u8 (av1_cap_to_u8 c.av1_encode))
    ∷ []

unfoldable pub panic_slots : ℕ → List Slot
panic_slots seq = push_slot (voff 0) (u32 seq) ∷ []

unfoldable pub elev_req_slots : EscalationReason → List Slot
elev_req_slots reason = push_slot (voff 0) (u8 (reason_to_u8 reason)) ∷ []

unfoldable pub elev_resp_slots : EscalationReason → ElevationOutcome → List Slot
elev_resp_slots reason outcome =
    push_slot (voff 0) (u8 (reason_to_u8 reason))
    ∷ push_slot (voff 1) (u8 (outcome_to_u8 outcome))
    ∷ []

-- The kind and the slots of an event.
unfoldable pub kind_of : IpcEvent → ℕ
kind_of (tier_update tier cpu_percent thermal) = kind_tier
kind_of (stream_budget budgets rtt_ms loss_pct) = kind_budget
kind_of (gear_update constraints) = kind_gear
kind_of (elevation_requested reason) = kind_elev_req
kind_of (elevation_response reason outcome) = kind_elev_resp
kind_of (panic_fired seq) = kind_panic

unfoldable pub slots_of : IpcEvent → List Slot
unfolding tier_slots budget_slots gear_slots panic_slots elev_req_slots elev_resp_slots
slots_of (tier_update tier cpu_percent thermal) = tier_slots tier cpu_percent thermal
slots_of (stream_budget budgets rtt_ms loss_pct) = budget_slots budgets rtt_ms loss_pct
slots_of (gear_update constraints) = gear_slots constraints
slots_of (elevation_requested reason) = elev_req_slots reason
slots_of (elevation_response reason outcome) = elev_resp_slots reason outcome
slots_of (panic_fired seq) = panic_slots seq

-- The bytes that the builder finishes with, for the slots pushed to one table.
module _ (finished_data : List Slot → List ℕ) where
  unfoldable pub encode_event : IpcEvent → List ℕ
  unfolding kind_of slots_of
  encode_event event =
      let fb = finished_data (slots_of event) in
      to_le_bytes 4 ((1 + length fb % 2 ^ 32) % 2 ^ 32) ++ (kind_of event ∷ fb)

-- The event of each kind, read from its table.
pub read_tier : FbTable → Outcome (Option IpcEvent)
read_tier t = do
  tier ← u8_at t 0
  cpu_percent ← f32_at t 1
  thermal ← u8_at t 2
  returns (some (tier_update (tier_from_u8 tier) cpu_percent (thermal_from_u8 thermal)))

pub read_budget : FbTable → Outcome (Option IpcEvent)
read_budget t = do
  screen_coarse ← u32_at t 2
  audio ← u32_at t 0
  input ← u32_at t 1
  camera ← u32_at t 3
  refinement ← u32_at t 4
  xfer ← u32_at t 5
  rtt_ms ← u32_at t 6
  loss_pct ← f32_at t 7
  returns (
      some (
        stream_budget
          (record {
            audio_bps = audio;
            input_bps = input;
            screen_coarse_bps = screen_coarse;
            camera_bps = camera;
            screen_refinement_bps = refinement;
            xfer_bps = xfer;
            display_resolution = select_resolution screen_coarse;
            per_frame_byte_cap = 0;
            roi_delta_qp = pos 0;
          })
          rtt_ms loss_pct))

pub read_gear : FbTable → Outcome (Option IpcEvent)
read_gear t = do
  cam_kind ← u8_at t 0
  svt_preset ← u8_at t 1
  refinement ← bool_at t 2
  thermal ← u8_at t 3
  av1 ← u8_at t 4
  returns (
      some (
        gear_update (record {
          max_camera_gear = camera_gear_from_pair cam_kind svt_preset;
          screen_refinement_allowed = refinement;
          audio_floor_bps = audio_floor_bps;
          thermal_level = thermal_from_u8 thermal;
          av1_encode = av1_cap_from_u8 av1;
        })))

pub read_elev_req : FbTable → Outcome (Option IpcEvent)
read_elev_req t = do
  reason ← u8_at t 0
  returns (some (elevation_requested (reason_from_u8 reason)))

pub read_elev_resp : FbTable → Outcome (Option IpcEvent)
read_elev_resp t = do
  reason ← u8_at t 0
  outcome ← u8_at t 1
  returns (some (elevation_response (reason_from_u8 reason) (outcome_from_u8 outcome)))

pub read_panic : FbTable → Outcome (Option IpcEvent)
read_panic t = do seq ← u32_at t 0; returns (some (panic_fired seq))

pub decode_kind : ℕ → FbTable → Outcome (Option IpcEvent)
decode_kind kind t =
    if kind == kind_tier
    then read_tier t
    else if kind == kind_budget
    then read_budget t
    else if kind == kind_gear
    then read_gear t
    else if kind == kind_elev_req
    then read_elev_req t
    else if kind == kind_elev_resp
    then read_elev_resp t
    else if kind == kind_panic
    then read_panic t
    else returns none

abbrev decode_table : ℕ → Option FbTable → Outcome (Option IpcEvent)
decode_table kind none = returns none
decode_table kind (some t) = decode_kind kind t

pub decode_fb : ℕ → List ℕ → Outcome (Option IpcEvent)
decode_fb kind fb = do table ← from_bytes fb; decode_table kind table

pub decode_frame : List ℕ → Outcome (Option IpcEvent)
decode_frame [] = returns none
decode_frame (kind ∷ fb) = decode_fb kind fb
