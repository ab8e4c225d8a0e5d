-- ===== src/Governor/Gears.antt =====
-- core/platform/src/gear_policy.rs and thermal.rs, core/nn/src/head_gear_gate.rs: which gears the
-- thermal state, the encoder probe, the CPU load and the accelerator allow.
pub mod Shedding
use lowband.Prelude.{
  ℕ, ◌+◌, ◌*◌, ◌/◌, ◌%◌, ◌^◌, Bool, true, false, not, ◌||◌, ◌&&◌, ltb, ◌==◌, if◌then◌else◌,
}
use lowband.Prelude.Float.{Float}

pub data ThermalPressure : Type 0 where
  nominal fair serious critical : ThermalPressure

abbrev pub pressure : ThermalPressure → ℕ
pressure nominal = 0
pressure fair = 1
pressure serious = 2
pressure critical = 3

pub is_elevated : ThermalPressure → Bool
is_elevated p = ltb (pressure nominal) (pressure p)

pub data Av1EncodeCapability : Type 0 where
  capable legacy : Av1EncodeCapability

-- `gear_b svt_preset`
pub data CameraGear : Type 0 where
  gear_a : CameraGear
  gear_b : ℕ → CameraGear
  gear_c off : CameraGear

abbrev pub is_neural : CameraGear → Bool
is_neural gear_a = true
is_neural _ = false

abbrev is_on : CameraGear → Bool
is_on off = false
is_on _ = true

pub record GearConstraints : Type 0 where
  pub max_camera_gear : CameraGear
  pub screen_refinement_allowed : Bool
  pub audio_floor_bps : ℕ
  pub thermal_level : ThermalPressure
  pub av1_encode : Av1EncodeCapability

abbrev pub audio_floor_bps : ℕ
audio_floor_bps = 6_000

pub neural_camera_allowed : GearConstraints → Bool
neural_camera_allowed c = is_neural c.max_camera_gear

unfoldable pub camera_allowed : GearConstraints → Bool
camera_allowed c = is_on c.max_camera_gear

-- The gear and the refinement flag that a thermal level allows, with the preset at `fair`.
abbrev thermal_gear : ℕ → ThermalPressure → CameraGear × Bool
thermal_gear preset nominal = (gear_a, true)
thermal_gear preset fair = (gear_b preset, true)
thermal_gear preset serious = (gear_b 12, false)
thermal_gear preset critical = (off, false)

-- A CPU that fails the probe uses gear C in place of A and B.
abbrev legacy_gear : Av1EncodeCapability → CameraGear → CameraGear
legacy_gear legacy gear_a = gear_c
legacy_gear legacy (gear_b preset) = gear_c
legacy_gear legacy gear = gear
legacy_gear capable gear = gear

unfoldable pub from_thermal_with_capability :
    ThermalPressure → Av1EncodeCapability → GearConstraints
from_thermal_with_capability p cap =
    let (max_gear, refinement) = thermal_gear 11 p in
    record {
      max_camera_gear = legacy_gear cap max_gear;
      screen_refinement_allowed = refinement;
      audio_floor_bps = audio_floor_bps;
      thermal_level = p;
      av1_encode = cap;
    }

unfoldable pub from_thermal : ThermalPressure → GearConstraints
unfolding from_thermal_with_capability
from_thermal p = from_thermal_with_capability p capable

pub data HeadGearCapability : Type 0 where
  available rejected : HeadGearCapability

abbrev is_rejected : HeadGearCapability → Bool
is_rejected rejected = true
is_rejected available = false

-- The CPU usage is an f64, which the code compares with constants only.
module _ (f : Float) where
  open f use {F, of_nat, lt}

  pub head_gear_available : Bool → F → HeadGearCapability
  head_gear_available has_npu cpu = if has_npu || lt cpu (of_nat 50) then available else rejected

  pub gear_b_preset_from_cpu_pct : F → ℕ
  gear_b_preset_from_cpu_pct cpu =
      if lt cpu (of_nat 50) then 10 else if lt cpu (of_nat 75) then 11 else 12

  pub from_thermal_with_capability_and_cpu :
      ThermalPressure → Av1EncodeCapability → F → GearConstraints
  unfolding gear_b_preset_from_cpu_pct
  from_thermal_with_capability_and_cpu p cap cpu =
      let (max_gear, refinement) = thermal_gear (gear_b_preset_from_cpu_pct cpu) p in
      record {
        max_camera_gear = legacy_gear cap max_gear;
        screen_refinement_allowed = refinement;
        audio_floor_bps = audio_floor_bps;
        thermal_level = p;
        av1_encode = cap;
      }

  pub from_thermal_with_capability_cpu_and_npu :
      ThermalPressure → Av1EncodeCapability → F → Bool → GearConstraints
  unfolding from_thermal_with_capability_and_cpu head_gear_available gear_b_preset_from_cpu_pct
  from_thermal_with_capability_cpu_and_npu p cap cpu has_npu =
      let c = from_thermal_with_capability_and_cpu p cap cpu in
      if is_neural c.max_camera_gear && is_rejected (head_gear_available has_npu cpu)
      then record c { max_camera_gear = gear_b (gear_b_preset_from_cpu_pct cpu) }
      else c
