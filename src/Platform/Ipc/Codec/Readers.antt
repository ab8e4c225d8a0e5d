-- ===== src/Platform/Ipc/Codec/Readers.antt =====
-- core/platform/src/ipc.rs: what `decode_fb` makes of the table of each kind of event.
use lowband.Prelude.{ℕ, ◌^◌, ◌<◌, ◌≡◌, ◌≢◌, refl, arith, some, List, Bool, not, ◌==◌}
use lowband.Prelude.Signed.{pos}
use lowband.Governor.Tier.{TierState}
use lowband.Governor.Gears.{
  ThermalPressure, GearConstraints, CameraGear, gear_b, audio_floor_bps, Av1EncodeCapability,
}
use lowband.Governor.Budget.{StreamBudgets, select_resolution}
use lowband.Platform.Ipc.{
  EscalationReason, ElevationOutcome, tier_update, stream_budget, gear_update, elevation_requested,
  elevation_response, panic_fired, tier_to_u8, tier_from_u8, thermal_to_u8, thermal_from_u8,
  camera_gear_to_pair, camera_gear_from_pair, av1_cap_to_u8, av1_cap_from_u8, reason_to_u8,
  reason_from_u8, outcome_to_u8, outcome_from_u8, bool_to_u8,
}
use lowband.Platform.Ipc.Table.{returns}
use lowband.Platform.Ipc.Codec.{
  tier_slots, budget_slots, gear_slots, panic_slots, elev_req_slots, elev_resp_slots, read_tier,
  read_budget, read_gear, read_elev_req, read_elev_resp, read_panic,
}
use lowband.Platform.Ipc.Format.{IsFlatBuffer}
use lowband.Platform.Ipc.Format.Slots.{table_of, u8_field, u32_field, f32_field}

-- The bits of an f32 other than those of -0.0.
abbrev pub IsF32 : ℕ → Type 0
IsF32 v = (v < 2 ^ 32) × (v ≢ 2 ^ 31)

abbrev pub IsPreset : CameraGear → Type 0
IsPreset (gear_b preset) = preset < 256
IsPreset _ = Unit {0}

abbrev pub AllU32 : StreamBudgets → Type 0
AllU32 b =
    (b.audio_bps < 2 ^ 32)
    × (b.input_bps < 2 ^ 32)
    × (b.screen_coarse_bps < 2 ^ 32)
    × (b.camera_bps < 2 ^ 32)
    × (b.screen_refinement_bps < 2 ^ 32)
    × (b.xfer_bps < 2 ^ 32)

-- Budgets as they are read: the resolution is derived again, and the frame cap and the quantiser
-- offset are zero.
abbrev pub carried : StreamBudgets → StreamBudgets
carried b = record b {
  display_resolution = select_resolution b.screen_coarse_bps;
  per_frame_byte_cap = 0;
  roi_delta_qp = pos 0;
}

bool_lem : (b : Bool) → (not (bool_to_u8 b == 0) ≡ b) × (bool_to_u8 b < 256)
bool_lem b = ground arith

tier_lem : (t : TierState) → (tier_from_u8 (tier_to_u8 t) ≡ t) × (tier_to_u8 t < 256)
tier_lem t = ground arith

thermal_lem :
    (t : ThermalPressure) → (thermal_from_u8 (thermal_to_u8 t) ≡ t) × (thermal_to_u8 t < 256)
thermal_lem t = ground arith

reason_lem : (r : EscalationReason) → (reason_from_u8 (reason_to_u8 r) ≡ r) × (reason_to_u8 r < 256)
reason_lem r = ground arith

outcome_lem :
    (o : ElevationOutcome) → (outcome_from_u8 (outcome_to_u8 o) ≡ o) × (outcome_to_u8 o < 256)
outcome_lem o = ground arith

av1_lem :
    (c : Av1EncodeCapability) → (av1_cap_from_u8 (av1_cap_to_u8 c) ≡ c) × (av1_cap_to_u8 c < 256)
av1_lem c = ground arith

gear_lem :
    (g : CameraGear)
    → IsPreset g
    → (camera_gear_from_pair ((camera_gear_to_pair g).0) ((camera_gear_to_pair g).1) ≡ g)
      × ((camera_gear_to_pair g).0 < 256)
      × ((camera_gear_to_pair g).1 < 256)
gear_lem g h = ground arith

-- Each reader meets the table of a buffer that holds the slots of its event.
module _ (buf : List ℕ) where
  pub read_tier-slots :
      (tier : TierState) (cpu : ℕ) (thermal : ThermalPressure)
      (h : IsFlatBuffer buf (tier_slots tier cpu thermal))
      → IsF32 cpu
      → read_tier (table_of buf h) ≡ returns (some (tier_update tier cpu thermal))
  unfolding read_tier tier_slots
  read_tier-slots tier cpu thermal h (small, unsigned) =
      let (s0, (s1, (s2, _))) = h.fields in
      let (same, bound) = tier_lem tier in
      let (same', bound') = thermal_lem thermal in
      let e0 = u8_field buf h 0 (tier_to_u8 tier) bound s0 in
      let e1 = f32_field buf h 1 cpu small unsigned s1 in
      let e2 = u8_field buf h 2 (thermal_to_u8 thermal) bound' s2 in
      rw (e0, e1, e2, same, same') refl

  pub read_budget-slots :
      (b : StreamBudgets) (rtt_ms loss : ℕ) (h : IsFlatBuffer buf (budget_slots b rtt_ms loss))
      → AllU32 b
      → rtt_ms < 2 ^ 32
      → IsF32 loss
      → read_budget (table_of buf h) ≡ returns (some (stream_budget (carried b) rtt_ms loss))
  unfolding read_budget budget_slots
  read_budget-slots b rtt_ms loss h (h0, h1, h2, h3, h4, h5) h6 (small, unsigned) =
      let (s0, (s1, (s2, (s3, (s4, (s5, (s6, (s7, _)))))))) = h.fields in
      let e0 = u32_field buf h 0 b.audio_bps h0 s0 in
      let e1 = u32_field buf h 1 b.input_bps h1 s1 in
      let e2 = u32_field buf h 2 b.screen_coarse_bps h2 s2 in
      let e3 = u32_field buf h 3 b.camera_bps h3 s3 in
      let e4 = u32_field buf h 4 b.screen_refinement_bps h4 s4 in
      let e5 = u32_field buf h 5 b.xfer_bps h5 s5 in
      let e6 = u32_field buf h 6 rtt_ms h6 s6 in
      let e7 = f32_field buf h 7 loss small unsigned s7 in rw (e0, e1, e2, e3, e4, e5, e6, e7) refl

  pub read_gear-slots :
      (c : GearConstraints) (h : IsFlatBuffer buf (gear_slots c))
      → IsPreset c.max_camera_gear
      → read_gear (table_of buf h)
        ≡ returns (some (gear_update (record c { audio_floor_bps = audio_floor_bps })))
  unfolding read_gear gear_slots
  read_gear-slots c h preset =
      let (s0, (s1, (s2, (s3, (s4, _))))) = h.fields in
      let (same, low, high) = gear_lem c.max_camera_gear preset in
      let (same3, bound3) = thermal_lem c.thermal_level in
      let (same4, bound4) = av1_lem c.av1_encode in
      let (same2, bound2) = bool_lem c.screen_refinement_allowed in
      let e0 = u8_field buf h 0 (camera_gear_to_pair c.max_camera_gear).0 low s0 in
      let e1 = u8_field buf h 1 (camera_gear_to_pair c.max_camera_gear).1 high s1 in
      let e2 = u8_field buf h 2 (bool_to_u8 c.screen_refinement_allowed) bound2 s2 in
      let e3 = u8_field buf h 3 (thermal_to_u8 c.thermal_level) bound3 s3 in
      let e4 = u8_field buf h 4 (av1_cap_to_u8 c.av1_encode) bound4 s4 in
      rw (e0, e1, e2, e3, e4, same, same2, same3, same4) refl

  pub read_elev_req-slots :
      (reason : EscalationReason) (h : IsFlatBuffer buf (elev_req_slots reason))
      → read_elev_req (table_of buf h) ≡ returns (some (elevation_requested reason))
  unfolding read_elev_req elev_req_slots
  read_elev_req-slots reason h =
      let (s0, _) = h.fields in
      let (same, bound) = reason_lem reason in
      let e0 = u8_field buf h 0 (reason_to_u8 reason) bound s0 in rw (e0, same) refl

  pub read_elev_resp-slots :
      (reason : EscalationReason) (outcome : ElevationOutcome)
      (h : IsFlatBuffer buf (elev_resp_slots reason outcome))
      → read_elev_resp (table_of buf h) ≡ returns (some (elevation_response reason outcome))
  unfolding read_elev_resp elev_resp_slots
  read_elev_resp-slots reason outcome h =
      let (s0, (s1, _)) = h.fields in
      let (same, bound) = reason_lem reason in
      let (same', bound') = outcome_lem outcome in
      let e0 = u8_field buf h 0 (reason_to_u8 reason) bound s0 in
      let e1 = u8_field buf h 1 (outcome_to_u8 outcome) bound' s1 in rw (e0, e1, same, same') refl

  pub read_panic-slots :
      (seq : ℕ) (h : IsFlatBuffer buf (panic_slots seq))
      → seq < 2 ^ 32
      → read_panic (table_of buf h) ≡ returns (some (panic_fired seq))
  unfolding read_panic panic_slots
  read_panic-slots seq h bound =
      let (s0, _) = h.fields in let e0 = u32_field buf h 0 seq bound s0 in rw e0 refl
