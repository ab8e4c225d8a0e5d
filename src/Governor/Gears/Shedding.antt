-- ===== src/Governor/Gears/Shedding.antt =====
-- core/platform/src/gear_policy.rs: rising pressure sheds load and never the voice floor.
use lowband.Prelude.{ℕ, ◌-◌, ◌≤◌, ◌≡◌, ◌↔◌, arith, Bool, true, false, ◌⊎◌}
use lowband.Prelude.Float.{Float}
use lowband.Governor.Gears.{
  ThermalPressure, nominal, fair, serious, critical, pressure, Av1EncodeCapability, capable,
  CameraGear, gear_a, gear_b, gear_c, off, GearConstraints, audio_floor_bps, camera_allowed,
  neural_camera_allowed, from_thermal_with_capability_cpu_and_npu,
}

-- How much a gear costs: the neural one most, then SVT-AV1 by its preset, OpenH264, nothing.
abbrev pub load : CameraGear → ℕ
load gear_a = 100
load (gear_b preset) = 60 - preset
load gear_c = 10
load off = 0

abbrev pub refinement_load : Bool → ℕ
refinement_load true = 1
refinement_load false = 0

module _ (f : Float) (cap : Av1EncodeCapability) (cpu : f.F) (npu : Bool) where
  abbrev constraints : ThermalPressure → GearConstraints
  constraints p = from_thermal_with_capability_cpu_and_npu f p cap cpu npu

  -- For the same machine and CPU load, more thermal pressure never allows a more expensive camera gear
  -- nor brings the refinement passes back, and the voice floor is 6 kbps at every level.
  pub pressure-sheds :
      (p q : ThermalPressure)
      → pressure p ≤ pressure q
      → (load (constraints q).max_camera_gear ≤ load (constraints p).max_camera_gear)
        × (refinement_load (constraints q).screen_refinement_allowed
            ≤ refinement_load (constraints p).screen_refinement_allowed)
        × ((constraints p).audio_floor_bps ≡ audio_floor_bps)
  unfolding from_thermal_with_capability_cpu_and_npu
  pressure-sheds nominal q h = ground arith
  pressure-sheds fair q h = ground arith
  pressure-sheds serious q h = ground arith
  pressure-sheds critical q h = ground arith

  -- The neural camera is allowed exactly without thermal pressure, on a CPU that passes the probe, with
  -- an accelerator or a CPU load under 50 %. The camera is off exactly at critical pressure.
  pub neural_camera_iff :
      (p : ThermalPressure)
      → ((neural_camera_allowed (constraints p) ≡ true)
          ↔ ((p ≡ nominal) × (cap ≡ capable) × ((npu ≡ true) ⊎ (f.lt cpu (f.of_nat 50) ≡ true))))
        × ((camera_allowed (constraints p) ≡ false) ↔ (p ≡ critical))
  unfolding from_thermal_with_capability_cpu_and_npu neural_camera_allowed camera_allowed
  neural_camera_iff p = ground arith
