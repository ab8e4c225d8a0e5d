-- ===== src/Platform/Ipc.antt =====
-- core/platform/src/ipc.rs: the events between the daemon and its UI shells, and the numbers that
-- stand for their parts on the wire. An f32 is its 32 bits.
pub mod Table
pub mod Codec
pub mod Format
pub mod Stream
pub mod Fanout
mod Tests
use lowband.Prelude.{ℕ, Bool, true, false, ◌==◌, if◌then◌else◌}
use lowband.Governor.Tier.{TierState, survival, constrained, comfortable, full}
use lowband.Governor.Gears.{
  ThermalPressure, nominal, fair, serious, critical, Av1EncodeCapability, capable, legacy,
  CameraGear, gear_a, gear_b, gear_c, off, GearConstraints,
}
use lowband.Governor.Budget.{StreamBudgets}

abbrev pub kind_tier : ℕ
kind_tier = 0

abbrev pub kind_budget : ℕ
kind_budget = 1

abbrev pub kind_gear : ℕ
kind_gear = 2

abbrev pub kind_elev_req : ℕ
kind_elev_req = 3

abbrev pub kind_elev_resp : ℕ
kind_elev_resp = 4

abbrev pub kind_panic : ℕ
kind_panic = 5

pub data EscalationReason : Type 0 where
  screen_capture input_injection service_install protected_write : EscalationReason

pub data ElevationOutcome : Type 0 where
  granted denied unavailable : ElevationOutcome

-- `tier_update tier cpu_percent thermal`, `stream_budget budgets rtt_ms loss_pct`.
pub data IpcEvent : Type 0 where
  tier_update : TierState → ℕ → ThermalPressure → IpcEvent
  stream_budget : StreamBudgets → ℕ → ℕ → IpcEvent
  gear_update : GearConstraints → IpcEvent
  elevation_requested : EscalationReason → IpcEvent
  elevation_response : EscalationReason → ElevationOutcome → IpcEvent
  panic_fired : ℕ → IpcEvent

abbrev pub tier_to_u8 : TierState → ℕ
tier_to_u8 survival = 0
tier_to_u8 constrained = 1
tier_to_u8 comfortable = 2
tier_to_u8 full = 3

abbrev pub tier_from_u8 : ℕ → TierState
tier_from_u8 v =
    if v == 1
    then constrained
    else if v == 2
    then comfortable
    else if v == 3
    then full
    else survival

abbrev pub thermal_to_u8 : ThermalPressure → ℕ
thermal_to_u8 nominal = 0
thermal_to_u8 fair = 1
thermal_to_u8 serious = 2
thermal_to_u8 critical = 3

abbrev pub thermal_from_u8 : ℕ → ThermalPressure
thermal_from_u8 v =
    if v == 1 then fair else if v == 2 then serious else if v == 3 then critical else nominal

abbrev pub camera_gear_to_pair : CameraGear → ℕ × ℕ
camera_gear_to_pair gear_a = (0, 0)
camera_gear_to_pair (gear_b svt_preset) = (1, svt_preset)
camera_gear_to_pair off = (2, 0)
camera_gear_to_pair gear_c = (3, 0)

abbrev pub camera_gear_from_pair : ℕ → ℕ → CameraGear
camera_gear_from_pair kind preset =
    if kind == 0
    then gear_a
    else if kind == 1
    then gear_b preset
    else if kind == 3
    then gear_c
    else off

abbrev pub av1_cap_to_u8 : Av1EncodeCapability → ℕ
av1_cap_to_u8 capable = 0
av1_cap_to_u8 legacy = 1

abbrev pub av1_cap_from_u8 : ℕ → Av1EncodeCapability
av1_cap_from_u8 v = if v == 1 then legacy else capable

abbrev pub reason_to_u8 : EscalationReason → ℕ
reason_to_u8 screen_capture = 0
reason_to_u8 input_injection = 1
reason_to_u8 service_install = 2
reason_to_u8 protected_write = 3

abbrev pub reason_from_u8 : ℕ → EscalationReason
reason_from_u8 v =
    if v == 1
    then input_injection
    else if v == 2
    then service_install
    else if v == 3
    then protected_write
    else screen_capture

abbrev pub outcome_to_u8 : ElevationOutcome → ℕ
outcome_to_u8 granted = 0
outcome_to_u8 denied = 1
outcome_to_u8 unavailable = 2

abbrev pub outcome_from_u8 : ℕ → ElevationOutcome
outcome_from_u8 v = if v == 0 then granted else if v == 1 then denied else unavailable

-- A `bool` on the wire.
abbrev pub bool_to_u8 : Bool → ℕ
bool_to_u8 true = 1
bool_to_u8 false = 0
