-- ===== src/Platform/Input.antt =====
-- core/platform/src/input_channel_sender.rs: the frames of keyboard and mouse events, with delta-coded
-- keys and signed variable-length numbers. An i32 is an integer within its range.
pub mod Varint
pub mod Channel
use lowband.Prelude.{
  ℕ, zero, suc, ◌+◌, ◌-◌, ◌*◌, ◌/◌, ◌%◌, ◌^◌, Bool, true, false, Option, none, some, List, [], ◌∷◌,
  ◌++◌, length, drop, ltb, leb, ◌==◌, ◌&&◌, if◌then◌else◌,
}
use lowband.Prelude.Signed.{ℤ, pos, negsuc, ◌+ℤ◌}

-- `value & 0x7f`
abbrev pub low_bits : ℤ → ℕ
low_bits (pos n) = n % 128
low_bits (negsuc n) = 127 - n % 128

-- `value >>= 7`, which extends the sign.
abbrev pub shift_right : ℤ → ℤ
shift_right (pos n) = pos (n / 128)
shift_right (negsuc n) = negsuc (n / 128)

-- `finished`, for what is left and the byte.
abbrev pub is_finished : ℤ → ℕ → Bool
is_finished (pos n) byte = (n == 0) && ltb byte 64
is_finished (negsuc n) byte = (n == 0) && leb 64 byte

-- The fuel is the number of bytes at most.
pub encode_loop : ℕ → ℤ → List ℕ
encode_loop zero value = []
encode_loop (suc fuel) value =
    let byte = low_bits value in
    let rest = encode_loop fuel (shift_right value) in
    if is_finished (shift_right value) byte then byte ∷ [] else ((byte + 128) ∷ rest)

pub encode_varint_i32 : ℤ → List ℕ
encode_varint_i32 value = encode_loop 5 value

-- The i32 with the given 32 bits.
pub as_i32 : ℕ → ℤ
as_i32 n = if ltb n (2 ^ 31) then pos n else negsuc (2 ^ 32 - 1 - n)

-- `result |= -(1i32 << shift)`, where the result has bits below `shift` only.
abbrev pub extend_sign : ℕ → ℕ → ℕ → ℕ
extend_sign byte shift result =
    if ltb shift 32 && leb 64 (byte % 128) then result + (2 ^ 32 - 2 ^ shift) else result

-- `result` is its 32 bits. Those of `bits << shift` stand above it, so that `|` is a sum.
pub decode_loop : List ℕ → ℕ → ℕ → ℕ → Option (ℤ × ℕ)
decode_loop [] shift result i = none
decode_loop (byte ∷ bytes) shift result i =
    let result = result + byte % 128 * 2 ^ shift % 2 ^ 32 in
    let shift = shift + 7 in
    let rest = decode_loop bytes shift result (i + 1) in
    if ltb byte 128
    then some (as_i32 (extend_sign byte shift result), i + 1)
    else if leb 35 shift
    then none
    else rest

pub decode_varint_i32 : List ℕ → Option (ℤ × ℕ)
decode_varint_i32 bytes = decode_loop bytes 0 0 0
