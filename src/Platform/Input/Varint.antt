-- ===== src/Platform/Input/Varint.antt =====
-- core/platform/src/input_channel_sender.rs: a signed number is read back from its bytes.
use lowband.Prelude.{
  ℕ, zero, suc, ◌+◌, ◌-◌, ◌*◌, ◌/◌, ◌%◌, ◌^◌, ◌≤◌, ◌<◌, ◌≡◌, refl, arith, true, false, some, List,
  [], ◌∷◌, ◌++◌, length, ltb, leb, Bool-cases, inl, inr,
}
use lowband.Prelude.Signed.{ℤ, pos, negsuc}
use lowband.Platform.Input.{
  encode_loop, encode_varint_i32, as_i32, decode_loop, decode_varint_i32, extend_sign, low_bits,
  shift_right, is_finished,
}

-- Behind the bits below `shift`, where `top` is 2 ^ (31 - shift), the bytes of a number are read to
-- the number above them, and counted.
abbrev Reads : ℕ → ℕ → ℕ → Type 0
Reads fuel shift top =
    (n r i : ℕ) (rest : List ℕ)
    → n < top
    → r < 2 ^ shift
    → (decode_loop (encode_loop fuel (pos n) ++ rest) shift r i
        ≡ some (as_i32 (r + n * 2 ^ shift), i + length (encode_loop fuel (pos n))))
      × (decode_loop (encode_loop fuel (negsuc n) ++ rest) shift r i
          ≡ some (
            as_i32 (r + (2 * top - 1 - n) * 2 ^ shift),
            i + length (encode_loop fuel (negsuc n)),
          ))

reads_28 : Reads 1 28 8
unfolding encode_loop decode_loop
reads_28 n r i rest hn hr = ground arith

-- A byte that goes on, and the last one.
decode_more :
    (byte shift r i : ℕ) (bytes : List ℕ)
    → byte < 128
    → shift + 7 < 35
    → decode_loop ((byte + 128) ∷ bytes) shift r i
      ≡ decode_loop bytes (shift + 7) (r + byte * 2 ^ shift % 2 ^ 32) (i + 1)
unfolding decode_loop
decode_more byte shift r i bytes small more =
    let e : (byte + 128) % 128 ≡ byte = omega arith in
    let f : ltb (byte + 128) 128 ≡ false = ground arith in
    let g : leb 35 (shift + 7) ≡ false = ground arith in rw (e, f, g) refl

decode_last :
    (byte shift r i : ℕ) (bytes : List ℕ)
    → byte < 128
    → decode_loop (byte ∷ bytes) shift r i
      ≡ some (as_i32 (extend_sign byte (shift + 7) (r + byte * 2 ^ shift % 2 ^ 32)), i + 1)
unfolding decode_loop
decode_last byte shift r i bytes small =
    let e : byte % 128 ≡ byte = omega arith in
    let f : ltb byte 128 ≡ true = ground arith in rw (e, f) refl

-- The bytes of a number that is finished, and of one that is not.
encode_last :
    (fuel : ℕ) (v : ℤ)
    → is_finished (shift_right v) (low_bits v) ≡ true
    → encode_loop (suc fuel) v ≡ low_bits v ∷ []
unfolding encode_loop
encode_last fuel v h = rw h refl

encode_more :
    (fuel : ℕ) (v : ℤ)
    → is_finished (shift_right v) (low_bits v) ≡ false
    → encode_loop (suc fuel) v ≡ (low_bits v + 128) ∷ encode_loop fuel (shift_right v)
unfolding encode_loop
encode_more fuel v h = rw h refl

-- What the bytes of one number are read to, at a place.
abbrev ReadsAt : ℕ → ℤ → ℕ → ℕ → ℕ → List ℕ → ℕ → Type 0
ReadsAt fuel v shift r i rest bits =
    decode_loop (encode_loop fuel v ++ rest) shift r i
    ≡ some (as_i32 bits, i + length (encode_loop fuel v))

step_last :
    (fuel : ℕ) (v : ℤ) (shift r i : ℕ) (rest : List ℕ) (bits : ℕ)
    → low_bits v < 128
    → is_finished (shift_right v) (low_bits v) ≡ true
    → extend_sign (low_bits v) (shift + 7) (r + low_bits v * 2 ^ shift % 2 ^ 32) ≡ bits
    → ReadsAt (suc fuel) v shift r i rest bits
step_last fuel v shift r i rest bits small h e =
    rw (encode_last fuel v h, decode_last (low_bits v) shift r i rest small, e) refl

step_more :
    (fuel : ℕ) (v : ℤ) (shift r i : ℕ) (rest : List ℕ) (bits : ℕ)
    → low_bits v < 128
    → shift + 7 < 35
    → is_finished (shift_right v) (low_bits v) ≡ false
    → ReadsAt fuel
        (shift_right v)
        (shift + 7)
        (r + low_bits v * 2 ^ shift % 2 ^ 32)
        (i + 1)
        rest
        bits
    → ReadsAt (suc fuel) v shift r i rest bits
step_more fuel v shift r i rest bits small more h next =
    let len : i + suc (length (encode_loop fuel (shift_right v)))
        ≡ i + 1 + length (encode_loop fuel (shift_right v)) =
      omega arith in
    rw
      (
        encode_more fuel v h,
        decode_more (low_bits v) shift r i (encode_loop fuel (shift_right v) ++ rest) small more,
        len,
      )
      next

-- The bits of a byte `b` above `shift` that is the last one, and of one that goes on.
abbrev Placed : ℕ → ℕ → ℕ → ℕ → ℕ → ℕ → Type 0
Placed shift b r low high bits =
    (low ≡ r + b * 2 ^ shift % 2 ^ 32)
    × (low < 2 ^ (shift + 7))
    × (low + high * 2 ^ (shift + 7) ≡ bits)

abbrev Arith : ℕ → ℕ → Type 0
Arith shift top =
    (n r : ℕ)
    → n < 128 * top
    → r < 2 ^ shift
    → (low low' : ℕ) × Placed shift (n % 128) r low (n / 128) (r + n * 2 ^ shift)
      × Placed shift (127 - n % 128) r low' (2 * top - 1 - n / 128)
          (r + (256 * top - 1 - n) * 2 ^ shift)
      × ((is_finished (shift_right (pos n)) (low_bits (pos n)) ≡ true)
          → extend_sign (n % 128) (shift + 7) low ≡ r + n * 2 ^ shift)
      × ((is_finished (shift_right (negsuc n)) (low_bits (negsuc n)) ≡ true)
          → extend_sign (127 - n % 128) (shift + 7) low' ≡ r + (256 * top - 1 - n) * 2 ^ shift)

facts_21 : Arith 21 8
facts_21 n r hn hr = (
  r + n % 128 * 2 ^ 21,
  r + (127 - n % 128) * 2 ^ 21,
  omega arith,
  omega arith,
  λ h. ground (arith, h),
  λ h. ground (arith, h),
)

facts_14 : Arith 14 1024
facts_14 n r hn hr = (
  r + n % 128 * 2 ^ 14,
  r + (127 - n % 128) * 2 ^ 14,
  omega arith,
  omega arith,
  λ h. ground (arith, h),
  λ h. ground (arith, h),
)

facts_7 : Arith 7 131_072
facts_7 n r hn hr = (
  r + n % 128 * 2 ^ 7,
  r + (127 - n % 128) * 2 ^ 7,
  omega arith,
  omega arith,
  λ h. ground (arith, h),
  λ h. ground (arith, h),
)

facts_0 : Arith 0 16_777_216
facts_0 n r hn hr = (
  r + n % 128,
  r + (127 - n % 128),
  omega arith,
  omega arith,
  λ h. ground (arith, h),
  λ h. ground (arith, h),
)

-- A round, from what it does with a last byte and with one that goes on.
step_at :
    (fuel : ℕ) (v : ℤ) (shift r i : ℕ) (rest : List ℕ) (low bits : ℕ)
    → low_bits v < 128
    → shift + 7 < 35
    → low ≡ r + low_bits v * 2 ^ shift % 2 ^ 32
    → ((is_finished (shift_right v) (low_bits v) ≡ true)
        → extend_sign (low_bits v) (shift + 7) low ≡ bits)
    → ReadsAt fuel (shift_right v) (shift + 7) low (i + 1) rest bits
    → ReadsAt (suc fuel) v shift r i rest bits
step_at fuel v shift r i rest low bits small more e last next =
    elim (Bool-cases (is_finished (shift_right v) (low_bits v))) [
      | inl h ↦ step_last fuel v shift r i rest bits small h (rw e at (last h))
      | inr h ↦ step_more fuel v shift r i rest bits small more h (rw e at next)
    ]

step :
    (fuel shift top : ℕ)
    → shift + 7 < 35
    → Arith shift top
    → Reads fuel (shift + 7) top
    → Reads (suc fuel) shift (128 * top)
step fuel shift top more facts next n r i rest hn hr =
    let (low, low', (e, bound, sum), (e', bound', sum'), last, last') = facts n r hn hr in
    let (p, _) = next (n / 128) low (i + 1) rest (omega arith) bound in
    let (_, q) = next (n / 128) low' (i + 1) rest (omega arith) bound' in
    let double : 2 * (128 * top) ≡ 256 * top = omega arith in
    (
      step_at fuel (pos n) shift r i rest low (r + n * 2 ^ shift) (omega arith) more e last
          (rw sum at p),
      rw double (
          step_at fuel (negsuc n) shift r i rest low' (r + (256 * top - 1 - n) * 2 ^ shift)
            (omega arith) more e' last' (rw sum' at q)),
    )

reads_0 : Reads 5 0 (2 ^ 31)
reads_0 = step 4 0 16_777_216 (omega arith) facts_0 (
    step 3 7 131_072 (omega arith) facts_7
      (step 2 14 1024 (omega arith) facts_14 (step 1 21 8 (omega arith) facts_21 reads_28)))

length-encode_loop : (fuel : ℕ) (v : ℤ) → length (encode_loop fuel v) ≤ fuel
unfolding encode_loop
length-encode_loop zero v = omega arith
length-encode_loop (suc fuel) v = elim (Bool-cases (is_finished (shift_right v) (low_bits v))) [
  | inl h ↦ rw h (omega arith)
  | inr h ↦ rw h (omega (arith, length-encode_loop fuel (shift_right v)))
]

-- An i32.
abbrev pub IsI32 : ℤ → Type 0
IsI32 (pos n) = n < 2 ^ 31
IsI32 (negsuc n) = n < 2 ^ 31

pub as_i32-pos : (n : ℕ) → n < 2 ^ 31 → as_i32 n ≡ pos n
unfolding as_i32
as_i32-pos n h = ground arith

pub as_i32-negsuc : (n : ℕ) → n < 2 ^ 31 → as_i32 (2 ^ 32 - 1 - n) ≡ negsuc n
unfolding as_i32
as_i32-negsuc n h =
    let e : ltb (2 ^ 32 - 1 - n) (2 ^ 31) ≡ false = ground arith in
    let f : 2 ^ 32 - 1 - (2 ^ 32 - 1 - n) ≡ n = omega arith in rw (e, f) refl

-- No number takes more than five bytes.
pub length-encode_varint_i32 : (v : ℤ) → length (encode_varint_i32 v) ≤ 5
unfolding encode_varint_i32
length-encode_varint_i32 v = length-encode_loop 5 v

-- A number is read back from its bytes, whatever follows them, and they are counted.
pub decode_varint_i32-encode_varint_i32 :
    (v : ℤ) (rest : List ℕ)
    → IsI32 v
    → decode_varint_i32 (encode_varint_i32 v ++ rest) ≡ some (v, length (encode_varint_i32 v))
unfolding decode_varint_i32 encode_varint_i32
decode_varint_i32-encode_varint_i32 (pos n) rest h =
    let (p, _) = reads_0 n 0 0 rest h (omega arith) in
    let e : 0 + n * 2 ^ 0 ≡ n = omega arith in
    let z : 0 + length (encode_varint_i32 (pos n)) ≡ length (encode_varint_i32 (pos n)) =
      omega arith in
    rw (as_i32-pos n h, z) at (rw e at p)
decode_varint_i32-encode_varint_i32 (negsuc n) rest h =
    let (_, q) = reads_0 n 0 0 rest h (omega arith) in
    let e : 0 + (2 * 2 ^ 31 - 1 - n) * 2 ^ 0 ≡ 2 ^ 32 - 1 - n = omega arith in
    let z : 0 + length (encode_varint_i32 (negsuc n)) ≡ length (encode_varint_i32 (negsuc n)) =
      omega arith in
    rw (as_i32-negsuc n h, z) at (rw e at q)
