-- ===== src/Platform/ReferenceFrame/Packet.antt =====
-- core/platform/src/reference_frame_sender.rs: which packets the decoder accepts.
use lowband.Prelude.{
  ℕ, ◌+◌, ◌-◌, ◌*◌, ◌^◌, ◌≤◌, ◌<◌, ◌≡◌, ◌↔◌, refl, arith, true, List, [], ◌∷◌, length, drop, get_or,
  Bool-cases, inl, inr, sym,
}
use lowband.Messaging.Bytes.{
  to_le_bytes, from_le_bytes, AllBytes, from_le_bytes-to_le_bytes, to_le_bytes-from_le_bytes,
}
use lowband.Platform.ReferenceFrame.{
  CameraFrame, ReferenceFrame, ok, GearAReferenceEncoder, pixel_bytes, is_valid, packet,
  encode_reference_frame, packet_width, packet_height, decode_pixels, decode,
}

-- The frame that a camera frame is decoded to.
abbrev pub as_reference : CameraFrame → ReferenceFrame
as_reference f = record { pixels = f.pixels; width = f.width; height = f.height }

abbrev pub IsU32 : ℕ → Type 0
IsU32 n = n < 2 ^ 32

packet_width-packet : (f : CameraFrame) → IsU32 f.width → packet_width (packet f) ≡ f.width
unfolding packet_width packet to_le_bytes
packet_width-packet f h = from_le_bytes-to_le_bytes 4 f.width (omega arith)

packet_height-packet : (f : CameraFrame) → IsU32 f.height → packet_height (packet f) ≡ f.height
unfolding packet_height packet to_le_bytes
packet_height-packet f h = from_le_bytes-to_le_bytes 4 f.height (omega arith)

packet_parts :
    (f : CameraFrame)
    → (length (packet f) ≡ 9 + length f.pixels)
      × (get_or (packet f) 0 0 ≡ 0x52)
      × (drop 9 (packet f) ≡ f.pixels)
unfolding packet to_le_bytes
packet_parts f = (omega arith, refl, refl)

-- The tests of a valid frame.
valid_parts :
    (f : CameraFrame)
    → is_valid f ≡ true
    → (0 < f.width) × (0 < f.height) × (length f.pixels ≡ pixel_bytes f.width f.height)
unfolding is_valid
valid_parts f h = ground (arith, h)

parts_valid :
    (f : CameraFrame)
    → 0 < f.width
    → 0 < f.height
    → length f.pixels ≡ pixel_bytes f.width f.height
    → is_valid f ≡ true
unfolding is_valid
parts_valid f hw hh e = ground (arith, e)

decode-packet :
    (f : CameraFrame)
    → IsU32 f.width
    → IsU32 f.height
    → is_valid f ≡ true
    → decode (packet f) ≡ ok (as_reference f)
unfolding decode decode_pixels
decode-packet f hw hh valid =
    let (w, h, len) = valid_parts f valid in
    let (total, tag, behind) = packet_parts f in
    let ew = packet_width-packet f hw in
    let eh = packet_height-packet f hh in ground (arith, w, h, len, total, tag, behind, ew, eh)

-- The bytes of a header and what is behind it.
header_parts :
    (b0 b1 b2 b3 c0 c1 c2 c3 : ℕ) (pixels : List ℕ)
    → AllBytes (b0 ∷ b1 ∷ b2 ∷ b3 ∷ c0 ∷ c1 ∷ c2 ∷ c3 ∷ pixels)
    → packet (record {
      pixels = pixels;
      width = from_le_bytes (b0 ∷ b1 ∷ b2 ∷ b3 ∷ []);
      height = from_le_bytes (c0 ∷ c1 ∷ c2 ∷ c3 ∷ []);
    })
      ≡ 0x52 ∷ b0 ∷ b1 ∷ b2 ∷ b3 ∷ c0 ∷ c1 ∷ c2 ∷ c3 ∷ pixels
unfolding packet
header_parts b0 b1 b2 b3 c0 c1 c2 c3 pixels (h0, (h1, (h2, (h3, (k0, (k1, (k2, (k3, _)))))))) =
    let (e, _) = to_le_bytes-from_le_bytes (b0 ∷ b1 ∷ b2 ∷ b3 ∷ []) (h0, (h1, (h2, (h3, tt)))) in
    let (e', _) = to_le_bytes-from_le_bytes (c0 ∷ c1 ∷ c2 ∷ c3 ∷ []) (k0, (k1, (k2, (k3, tt)))) in
    rw (e, e') refl

decode_pixels-ok :
    (w h : ℕ) (bytes : List ℕ) (r : ReferenceFrame)
    → decode_pixels w h bytes ≡ ok r
    → (0 < w)
      × (0 < h)
      × (length bytes - 9 ≡ pixel_bytes w h)
      × (r ≡ record { pixels = drop 9 bytes; width = w; height = h })
unfolding decode_pixels
decode_pixels-ok w h bytes r e = ground (arith, e)

decode_tag :
    (t : ℕ) (bytes : List ℕ) (r : ReferenceFrame)
    → 8 ≤ length bytes
    → decode (t ∷ bytes) ≡ ok r
    → (t ≡ 0x52)
      × (decode_pixels (packet_width (t ∷ bytes)) (packet_height (t ∷ bytes)) (t ∷ bytes) ≡ ok r)
unfolding decode
decode_tag t bytes r long e = ground (arith, long, e)

decoded :
    (b0 b1 b2 b3 c0 c1 c2 c3 : ℕ) (pixels : List ℕ) (t : ℕ) (r : ReferenceFrame)
    → t ≡ 0x52
    → AllBytes (b0 ∷ b1 ∷ b2 ∷ b3 ∷ c0 ∷ c1 ∷ c2 ∷ c3 ∷ pixels)
    → 0 < from_le_bytes (b0 ∷ b1 ∷ b2 ∷ b3 ∷ [])
    → 0 < from_le_bytes (c0 ∷ c1 ∷ c2 ∷ c3 ∷ [])
    → length pixels
      ≡ pixel_bytes
          (from_le_bytes (b0 ∷ b1 ∷ b2 ∷ b3 ∷ []))
          (from_le_bytes (c0 ∷ c1 ∷ c2 ∷ c3 ∷ []))
    → r ≡ record {
      pixels = pixels;
      width = from_le_bytes (b0 ∷ b1 ∷ b2 ∷ b3 ∷ []);
      height = from_le_bytes (c0 ∷ c1 ∷ c2 ∷ c3 ∷ []);
    }
    → (is_valid (record { pixels = r.pixels; width = r.width; height = r.height }) ≡ true)
      × (t ∷ b0 ∷ b1 ∷ b2 ∷ b3 ∷ c0 ∷ c1 ∷ c2 ∷ c3 ∷ pixels
          ≡ packet (record { pixels = r.pixels; width = r.width; height = r.height }))
decoded b0 b1 b2 b3 c0 c1 c2 c3 pixels t r tag h hw hh len same =
    let f : CameraFrame = record {
      pixels = pixels;
      width = from_le_bytes (b0 ∷ b1 ∷ b2 ∷ b3 ∷ []);
      height = from_le_bytes (c0 ∷ c1 ∷ c2 ∷ c3 ∷ []);
    } in
    let joined = header_parts b0 b1 b2 b3 c0 c1 c2 c3 pixels h in
    rw (same, tag) (parts_valid f hw hh len, sym joined)

-- A frame that is decoded from bytes is a valid one, of which they are the packet.
decode-ok :
    (bytes : List ℕ) (r : ReferenceFrame)
    → AllBytes bytes
    → decode bytes ≡ ok r
    → (is_valid (record { pixels = r.pixels; width = r.width; height = r.height }) ≡ true)
      × (bytes ≡ packet (record { pixels = r.pixels; width = r.width; height = r.height }))
unfolding decode packet_width packet_height
decode-ok (t ∷ b0 ∷ b1 ∷ b2 ∷ b3 ∷ c0 ∷ c1 ∷ c2 ∷ c3 ∷ pixels) r (ht, h) e =
    let rest = b0 ∷ b1 ∷ b2 ∷ b3 ∷ c0 ∷ c1 ∷ c2 ∷ c3 ∷ pixels in
    let (tag, e') = decode_tag t rest r (omega arith) e in
    let (hw, hh, len, same) =
      decode_pixels-ok (packet_width (t ∷ rest)) (packet_height (t ∷ rest)) (t ∷ rest) r e' in
    decoded b0 b1 b2 b3 c0 c1 c2 c3 pixels t r tag h hw hh (omega (arith, len)) same
decode-ok bytes r h e = cc

decode-encoded :
    (e : GearAReferenceEncoder) (f : CameraFrame) (bytes : List ℕ)
    → IsU32 f.width
    → IsU32 f.height
    → encode_reference_frame e f ≡ (record { reference_sent = true }, ok bytes)
    → decode bytes ≡ ok (as_reference f)
unfolding encode_reference_frame
decode-encoded e f bytes hw hh s = elim (Bool-cases (is_valid f)) [
  | inl v ↦
      let same : packet f ≡ bytes = ground (arith, s, v) in rw same at (decode-packet f hw hh v)
  | inr v ↦ ground (arith, s, v)
]

-- The decoder accepts exactly the packets that the encoder makes of valid frames, and gives the frame.
pub decode-encode_iff :
    (e : GearAReferenceEncoder) (f : CameraFrame) (bytes : List ℕ)
    → IsU32 f.width
    → IsU32 f.height
    → AllBytes bytes
    → (decode bytes ≡ ok (as_reference f))
      ↔ (encode_reference_frame e f ≡ (record { reference_sent = true }, ok bytes))
unfolding encode_reference_frame
decode-encode_iff e f bytes hw hh h = (
  λ d. let (valid, same) = decode-ok bytes (as_reference f) h d in ground (arith, valid, same),
  λ s. decode-encoded e f bytes hw hh s,
)

-- Where the count of a frame's pixel bytes passes 2 ^ 32, its packet is accepted with fewer of them than
-- the width and the height ask for.
pub decode_wrapped :
    (e : GearAReferenceEncoder) (f : CameraFrame)
    → IsU32 f.width
    → IsU32 f.height
    → is_valid f ≡ true
    → 2 ^ 32 ≤ f.width * f.height * 3
    → (bytes : List ℕ) × (encode_reference_frame e f ≡ (record { reference_sent = true }, ok bytes))
      × (decode bytes ≡ ok (as_reference f))
      × (length f.pixels < f.width * f.height * 3)
unfolding encode_reference_frame pixel_bytes
decode_wrapped e f hw hh valid large =
    let (_, _, len) = valid_parts f valid in
    (packet f, rw valid refl, decode-packet f hw hh valid, omega (arith, len, large))
