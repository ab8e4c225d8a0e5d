-- ===== src/Governor/Budget.antt =====
-- core/platform/src/gear_policy.rs: `allocate` divides the send rate over the streams by priority.
pub mod Priority
use lowband.Prelude.{ℕ, ◌+◌, ◌-◌, ◌*◌, ◌/◌, ◌%◌, ◌^◌, min, max, Bool, leb, ◌==◌, if◌then◌else◌}
use lowband.Prelude.Signed.{ℤ, pos, negsuc}
use lowband.Governor.Gears.{
  CameraGear, gear_a, gear_b, gear_c, off, GearConstraints, camera_allowed,
}

-- u32 arithmetic: products wrap at 2 ^ 32.
unfoldable pub gear_b_per_frame_byte_cap : ℕ → ℕ → ℕ
gear_b_per_frame_byte_cap camera_bps fps =
    if fps == 0 then 0 else camera_bps * 2 % 2 ^ 32 / (8 * fps % 2 ^ 32)

abbrev pub gear_b_target_fps : ℕ
gear_b_target_fps = 30

-- -3
abbrev pub roi_face_delta_qp : ℤ
roi_face_delta_qp = negsuc 2

abbrev pub input_floor_bps : ℕ
input_floor_bps = 3_000

pub record DisplayResolution : Type 0 where
  pub width : ℕ
  pub height : ℕ

abbrev pub screen_upgrade_bps : ℕ
screen_upgrade_bps = 10_000

abbrev pub low_resolution : DisplayResolution
low_resolution = record { width = 640; height = 360 }

abbrev pub high_resolution : DisplayResolution
high_resolution = record { width = 848; height = 480 }

-- The ladder from its top: 848 × 480 from 10 kbps on, and 640 × 360 from 0 on.
unfoldable pub select_resolution : ℕ → DisplayResolution
select_resolution screen_coarse_bps =
    if leb screen_upgrade_bps screen_coarse_bps then high_resolution else low_resolution

pub record StreamBudgets : Type 0 where
  pub audio_bps : ℕ
  pub input_bps : ℕ
  pub screen_coarse_bps : ℕ
  pub camera_bps : ℕ
  pub screen_refinement_bps : ℕ
  pub xfer_bps : ℕ
  pub display_resolution : DisplayResolution
  pub per_frame_byte_cap : ℕ
  pub roi_delta_qp : ℤ

abbrev frame_cap : CameraGear → ℕ → ℕ
frame_cap (gear_b preset) camera_bps = gear_b_per_frame_byte_cap camera_bps gear_b_target_fps
frame_cap _ camera_bps = 0

abbrev roi_delta : CameraGear → ℤ
roi_delta (gear_b preset) = roi_face_delta_qp
roi_delta _ = pos 0

-- `saturating_sub` is the truncated subtraction. The floor of input is at most what audio has left, and the
-- headroom of bulk transfer is neither cut at the survival tier nor at the critical level.
unfoldable pub allocate : ℕ → GearConstraints → StreamBudgets
unfolding select_resolution gear_b_per_frame_byte_cap
allocate total c =
    let audio = max (min total 24_000) c.audio_floor_bps in
    let after_audio = total - audio in
    let input = max (min after_audio 8_000) (min input_floor_bps after_audio) in
    let after_input = after_audio - input in
    let screen = min after_input 20_000 in
    let after_screen = after_input - screen in
    let camera : ℕ = if camera_allowed c then min after_screen 300_000 else 0 in
    let after_camera = after_screen - camera in
    let refinement : ℕ = if c.screen_refinement_allowed then min after_camera 50_000 else 0 in
    record {
      audio_bps = audio;
      input_bps = input;
      screen_coarse_bps = screen;
      camera_bps = camera;
      screen_refinement_bps = refinement;
      xfer_bps = after_camera - refinement;
      display_resolution = select_resolution screen;
      per_frame_byte_cap = frame_cap c.max_camera_gear camera;
      roi_delta_qp = roi_delta c.max_camera_gear;
    }
