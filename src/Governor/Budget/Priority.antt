-- ===== src/Governor/Budget/Priority.antt =====
-- core/platform/src/gear_policy.rs: what `allocate` guarantees.
use lowband.Prelude.{
  ℕ, ◌+◌, ◌*◌, ◌≤◌, ◌<◌, ◌≡◌, ◌⊎◌, arith, Bool, true, false, min, max, Bool-cases, if◌then◌else◌,
  refl, inl, inr,
}
use lowband.Governor.Gears.{
  CameraGear, gear_a, gear_b, gear_c, off, GearConstraints, camera_allowed,
}
use lowband.Governor.Budget.{StreamBudgets, allocate, frame_cap, gear_b_per_frame_byte_cap}

abbrev pub total_of : StreamBudgets → ℕ
total_of b =
    b.audio_bps + b.input_bps + b.screen_coarse_bps + b.camera_bps + b.screen_refinement_bps
    + b.xfer_bps

-- The audio floor is granted whatever the rate. Where the rate covers the floor, the six budgets add up
-- to the rate exactly; where it does not, audio gets the floor and no other stream gets anything.
pub allocate-total :
    (total : ℕ) (c : GearConstraints)
    → (c.audio_floor_bps ≤ (allocate total c).audio_bps)
      × (total_of (allocate total c) ≡ max total c.audio_floor_bps)
unfolding allocate
allocate-total total c = ground arith

-- A stream is at 0 or those in front of it are at their caps.
pub record StrictPriority (c : GearConstraints) (b : StreamBudgets) : Type 0 where
  pub input : (b.input_bps ≡ 0) ⊎ (24_000 ≤ b.audio_bps)
  pub screen : (b.screen_coarse_bps ≡ 0) ⊎ (b.input_bps ≡ 8_000)
  pub camera : (b.camera_bps ≡ 0) ⊎ (b.screen_coarse_bps ≡ 20_000)
  pub refinement :
      (b.screen_refinement_bps ≡ 0)
      ⊎ ((b.screen_coarse_bps ≡ 20_000) × ((b.camera_bps ≡ 300_000) ⊎ (camera_allowed c ≡ false)))
  pub xfer :
      (b.xfer_bps ≡ 0)
      ⊎ ((b.screen_coarse_bps ≡ 20_000)
          × ((b.camera_bps ≡ 300_000) ⊎ (camera_allowed c ≡ false))
          × ((b.screen_refinement_bps ≡ 50_000) ⊎ (c.screen_refinement_allowed ≡ false)))

-- A stream gets something only if those in front of it have all they can use: 24 kbps audio, 8 kbps
-- input, 20 kbps coarse screen, 300 kbps camera unless it is off, 50 kbps refinement unless suspended.
pub allocate-StrictPriority :
    (total : ℕ) (c : GearConstraints) → StrictPriority c (allocate total c)
unfolding allocate
allocate-StrictPriority total c = ground arith

-- A higher rate takes nothing away from any stream.
pub allocate_mono :
    (t u : ℕ) (c : GearConstraints)
    → t ≤ u
    → ((allocate t c).audio_bps ≤ (allocate u c).audio_bps)
      × ((allocate t c).input_bps ≤ (allocate u c).input_bps)
      × ((allocate t c).screen_coarse_bps ≤ (allocate u c).screen_coarse_bps)
      × ((allocate t c).camera_bps ≤ (allocate u c).camera_bps)
      × ((allocate t c).screen_refinement_bps ≤ (allocate u c).screen_refinement_bps)
      × ((allocate t c).xfer_bps ≤ (allocate u c).xfer_bps)
unfolding allocate
allocate_mono t u c h = elim (Bool-cases (camera_allowed c)) [
  | inl camera ↦ elim (Bool-cases c.screen_refinement_allowed) [
    | inl fine ↦ rw (camera, fine) (omega arith)
    | inr coarse ↦ rw (camera, coarse) (omega arith)
  ]
  | inr dark ↦ elim (Bool-cases c.screen_refinement_allowed) [
    | inl fine ↦ rw (dark, fine) (omega arith)
    | inr coarse ↦ rw (dark, coarse) (omega arith)
  ]
]

abbrev pub is_gear_b : CameraGear → Bool
is_gear_b (gear_b preset) = true
is_gear_b _ = false

cap_bounds :
    (camera : ℕ)
    → camera ≤ 300_000
    → (120 * gear_b_per_frame_byte_cap camera 30 ≤ camera)
      × (camera < 120 * gear_b_per_frame_byte_cap camera 30 + 120)
unfolding gear_b_per_frame_byte_cap
cap_bounds camera h = omega arith

camera_bound : (on : Bool) (rest : ℕ) → (if on then min rest 300_000 else 0) ≤ 300_000
camera_bound true rest = omega arith
camera_bound false rest = omega arith

abbrev Capped : CameraGear → ℕ → ℕ → Type 0
Capped gear camera cap =
    (((preset : ℕ) × (gear ≡ gear_b preset)) × (120 * cap ≤ camera) × (camera < 120 * cap + 120))
    ⊎ ((is_gear_b gear ≡ false) × (cap ≡ 0))

frame_cap-Capped :
    (gear : CameraGear) (camera : ℕ) → camera ≤ 300_000 → Capped gear camera (frame_cap gear camera)
frame_cap-Capped gear_a camera h = inr (refl, refl)
frame_cap-Capped (gear_b preset) camera h =
    inl ((preset, refl), (cap_bounds camera h).0, (cap_bounds camera h).1)
frame_cap-Capped gear_c camera h = inr (refl, refl)
frame_cap-Capped off camera h = inr (refl, refl)

-- With gear B the frame cap is twice the mean frame size at 30 frames a second, rounded down: the
-- products of the 32-bit computation do not wrap at any rate. With any other gear it is 0.
allocate-frame_cap :
    (total : ℕ) (c : GearConstraints)
    → (((preset : ℕ) × (c.max_camera_gear ≡ gear_b preset))
        × (120 * (allocate total c).per_frame_byte_cap ≤ (allocate total c).camera_bps)
        × ((allocate total c).camera_bps < 120 * (allocate total c).per_frame_byte_cap + 120))
      ⊎ ((is_gear_b c.max_camera_gear ≡ false) × ((allocate total c).per_frame_byte_cap ≡ 0))
unfolding allocate
allocate-frame_cap total c =
    frame_cap-Capped c.max_camera_gear _ (camera_bound (camera_allowed c) _)
