-- ===== src/Platform/ReferenceFrame/Tests.antt =====
-- core/platform/src/reference_frame_sender.rs: single packets.
use lowband.Prelude.{ℕ, ◌*◌, ◌<◌, ◌≡◌, ◌↔◌, refl, arith, true, List, [], ◌∷◌, length}
use lowband.Messaging.Bytes.{from_le_bytes}
use lowband.Platform.ReferenceFrame.{
  CameraFrame, ok, err, unknown_tag, new, is_valid, encode_reference_frame, packet_width,
  packet_height, pixel_bytes, decode_pixels, decode,
}
use lowband.Platform.ReferenceFrame.Packet.{as_reference, decode-encode_iff, decode_wrapped}

-- One row of two pixels.
abbrev row : CameraFrame
row = record { pixels = 1 ∷ 2 ∷ 3 ∷ 4 ∷ 5 ∷ 6 ∷ []; width = 2; height = 1 }

abbrev row_bytes : List ℕ
row_bytes = 0x52 ∷ 2 ∷ 0 ∷ 0 ∷ 0 ∷ 1 ∷ 0 ∷ 0 ∷ 0 ∷ 1 ∷ 2 ∷ 3 ∷ 4 ∷ 5 ∷ 6 ∷ []

decode-row : decode row_bytes ≡ ok (as_reference row)
unfolding decode decode_pixels packet_width packet_height from_le_bytes pixel_bytes
decode-row = refl

decode_tag_wrong : decode (0x53 ∷ row_bytes) ≡ err (unknown_tag 0x53)
unfolding decode decode_pixels packet_width packet_height from_le_bytes pixel_bytes
decode_tag_wrong = refl

decode-encode_iff_example :
    (decode row_bytes ≡ ok (as_reference row))
    ↔ (encode_reference_frame new row ≡ (record { reference_sent = true }, ok row_bytes))
decode-encode_iff_example =
    decode-encode_iff new row row_bytes (omega arith) (omega arith) (omega arith)

-- 65536 by 65536, with no pixels.
abbrev huge : CameraFrame
huge = record { pixels = []; width = 65_536; height = 65_536 }

huge_valid : is_valid huge ≡ true
unfolding is_valid
huge_valid = refl

decode_wrapped_example :
    (bytes : List ℕ) × (encode_reference_frame new huge
      ≡ (record { reference_sent = true }, ok bytes))
    × (decode bytes ≡ ok (as_reference huge))
    × (length huge.pixels < huge.width * huge.height * 3)
decode_wrapped_example =
    decode_wrapped new huge (omega arith) (omega arith) huge_valid (omega arith)
