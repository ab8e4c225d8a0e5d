-- ===== src/Platform/ReferenceFrame.antt =====
-- core/platform/src/reference_frame_sender.rs: the packets of reference frames, with `CameraFrame` of
-- keypoint_extractor.rs and `ReferenceFrame` of synthesis_network.rs there.
pub mod Packet
mod Tests
use lowband.Prelude.{
  ℕ, ◌+◌, ◌-◌, ◌*◌, ◌%◌, ◌^◌, Bool, true, false, List, [], ◌∷◌, ◌++◌, length, take, drop, get_or,
  ltb, leb, ◌==◌, ◌&&◌, ◌||◌, not, if◌then◌else◌,
}
use lowband.Messaging.Bytes.{to_le_bytes, from_le_bytes}

abbrev pub tag_reference_frame : ℕ
tag_reference_frame = 0x52

abbrev pub header_width_offset : ℕ
header_width_offset = 1

abbrev pub header_height_offset : ℕ
header_height_offset = 5

abbrev pub header_len : ℕ
header_len = 9

pub data ReferenceCodecError : Type 0 where
  invalid_frame packet_too_short : ReferenceCodecError
  unknown_tag : ℕ → ReferenceCodecError
  zero_dimension : ReferenceCodecError
  pixel_length_mismatch : ℕ → ℕ → ReferenceCodecError

pub data Result {κ} (X : Type κ) : Type κ where
  err : ReferenceCodecError → Result X
  ok : X → Result X

pub record CameraFrame : Type 0 where
  pub pixels : List ℕ
  pub width : ℕ
  pub height : ℕ

pub record ReferenceFrame : Type 0 where
  pub pixels : List ℕ
  pub width : ℕ
  pub height : ℕ

-- `width * height * 3` of u32s, which wraps.
unfoldable pub pixel_bytes : ℕ → ℕ → ℕ
pixel_bytes width height = width * height % 2 ^ 32 * 3 % 2 ^ 32

-- `CameraFrame::is_valid`
unfoldable pub is_valid : CameraFrame → Bool
unfolding pixel_bytes
is_valid f = ltb 0 f.width && (ltb 0 f.height && (length f.pixels == pixel_bytes f.width f.height))

pub record GearAReferenceEncoder : Type 0 where
  pub reference_sent : Bool

pub new : GearAReferenceEncoder
new = record { reference_sent = false }

pub needs_reference_frame : GearAReferenceEncoder → Bool
needs_reference_frame e = not e.reference_sent

pub reset : GearAReferenceEncoder → GearAReferenceEncoder
reset e = record { reference_sent = false }

-- The bytes of a packet.
packet : CameraFrame → List ℕ
packet f = tag_reference_frame ∷ (to_le_bytes 4 f.width ++ (to_le_bytes 4 f.height ++ f.pixels))

pub encode_reference_frame :
    GearAReferenceEncoder → CameraFrame → GearAReferenceEncoder × Result (List ℕ)
encode_reference_frame e f =
    if not (is_valid f)
    then (e, err invalid_frame)
    else (record { reference_sent = true }, ok (packet f))

-- `width` and `height`, of a packet and in `decode`.
unfoldable pub packet_width : List ℕ → ℕ
packet_width bytes = from_le_bytes (take 4 (drop header_width_offset bytes))

unfoldable pub packet_height : List ℕ → ℕ
packet_height bytes = from_le_bytes (take 4 (drop header_height_offset bytes))

-- The tests behind the header.
decode_pixels : ℕ → ℕ → List ℕ → Result ReferenceFrame
decode_pixels width height bytes =
    if (width == 0) || (height == 0)
    then err zero_dimension
    else (let expected = pixel_bytes width height in
        let actual = length bytes - header_len in
        if not (actual == expected)
        then err (pixel_length_mismatch expected actual)
        else ok (record { pixels = drop header_len bytes; width = width; height = height }))

pub decode : List ℕ → Result ReferenceFrame
decode bytes =
    if ltb (length bytes) header_len
    then err packet_too_short
    else if not (get_or bytes 0 0 == tag_reference_frame)
    then err (unknown_tag (get_or bytes 0 0))
    else decode_pixels (packet_width bytes) (packet_height bytes) bytes
