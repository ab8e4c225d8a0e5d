-- ===== src/Platform/Input/Channel.antt =====
-- core/platform/src/input_channel_sender.rs: the two ends of the input channel and the coalescer of
-- mouse moves, with the events and buttons of input_injection.rs there.
mod Keys
pub mod Session
pub mod Coalescer
mod Tests
use lowband.Prelude.{
  ℕ, ◌+◌, ◌-◌, ◌*◌, ◌%◌, ◌^◌, Bool, true, false, Option, none, some, List, [], ◌∷◌, ◌++◌, length,
  drop, ltb, leb, ◌==◌, ◌&&◌, ◌||◌, not, if◌then◌else◌,
}
use lowband.Prelude.Signed.{ℤ, pos, negsuc, ◌+ℤ◌}
use lowband.Platform.Input.{encode_varint_i32, decode_varint_i32, as_i32}

abbrev pub max_input_frame_bytes : ℕ
max_input_frame_bytes = 1_179

abbrev pub disc_key_press : ℕ
disc_key_press = 0x01

abbrev pub disc_key_release : ℕ
disc_key_release = 0x02

abbrev pub disc_mouse_move : ℕ
disc_mouse_move = 0x10

abbrev pub disc_button_press : ℕ
disc_button_press = 0x20

abbrev pub disc_button_release : ℕ
disc_button_release = 0x21

pub data MouseButton : Type 0 where
  left right middle : MouseButton

abbrev pub button_to_wire : MouseButton → ℕ
button_to_wire left = 0
button_to_wire right = 1
button_to_wire middle = 2

abbrev pub wire_to_button : ℕ → Option MouseButton
wire_to_button byte =
    if byte == 0
    then some left
    else if byte == 1
    then some right
    else if byte == 2
    then some middle
    else none

-- The displacement of a move is an f64.
pub data InputEvent (F : Type 0) : Type 0 where
  key_press key_release : ℕ → InputEvent F
  mouse_move : F → F → InputEvent F
  mouse_button_press mouse_button_release : MouseButton → InputEvent F

-- The two ends keep the last key.
pub record InputChannelSender : Type 0 where
  pub last_keycode : ℕ

pub record InputChannelDecoder : Type 0 where
  pub last_keycode : ℕ

unfoldable pub new_sender : InputChannelSender
new_sender = record { last_keycode = 0 }

unfoldable pub new_decoder : InputChannelDecoder
new_decoder = record { last_keycode = 0 }

-- `keycode as i32 - last as i32`, which wraps.
unfoldable pub key_delta : ℕ → ℕ → ℤ
key_delta keycode last = as_i32 ((keycode + 2 ^ 32 - last) % 2 ^ 32)

-- An integer as an i32, where it is one.
abbrev in_i32 : ℤ → Option ℤ
in_i32 (pos n) = if ltb n (2 ^ 31) then some (pos n) else none
in_i32 (negsuc n) = if ltb n (2 ^ 31) then some (negsuc n) else none

-- `as u32` of an i32.
abbrev as_u32 : ℤ → ℕ
as_u32 (pos n) = n
as_u32 (negsuc n) = 2 ^ 32 - 1 - n

abbrev map_u32 : Option ℤ → Option ℕ
map_u32 none = none
map_u32 (some v) = some (as_u32 v)

-- `(last as i32).checked_add(delta)? as u32`
unfoldable pub next_keycode : ℕ → ℤ → Option ℕ
next_keycode last delta = map_u32 (in_i32 (as_i32 last +ℤ delta))

-- `split_first` and `first`.
abbrev first : List ℕ → Option ℕ
first [] = none
first (b ∷ bytes) = some b

abbrev within_cap : List ℕ → Option (List ℕ)
within_cap buf = if leb (length buf) max_input_frame_bytes then some buf else none

infixl 5 ◌>>=◌
abbrev pub ◌>>=◌ {ℓ κ} : {X : Type ℓ} {Y : Type κ} → Option X → (X → Option Y) → Option Y
none >>= next = none
some x >>= next = next x

-- The parameters are `x.round() as i32` and `v as f64`.
module _ {F : Type 0} (round_i32 : F → ℤ) (of_i32 : ℤ → F) where
  encode_event : InputChannelSender → InputEvent F → InputChannelSender × List ℕ
  encode_event s (key_press keycode) = (
    record { last_keycode = keycode },
    disc_key_press ∷ encode_varint_i32 (key_delta keycode s.last_keycode),
  )
  encode_event s (key_release keycode) = (
    record { last_keycode = keycode },
    disc_key_release ∷ encode_varint_i32 (key_delta keycode s.last_keycode),
  )
  encode_event s (mouse_move dx dy) =
      (s, disc_mouse_move ∷ (encode_varint_i32 (round_i32 dx) ++ encode_varint_i32 (round_i32 dy)))
  encode_event s (mouse_button_press button) = (s, disc_button_press ∷ (button_to_wire button ∷ []))
  encode_event s (mouse_button_release button) =
      (s, disc_button_release ∷ (button_to_wire button ∷ []))

  pub encode : InputChannelSender → InputEvent F → InputChannelSender × Option (List ℕ)
  encode s event = let (s', buf) = encode_event s event in (s', within_cap buf)

  -- The key of a frame, and the state that it leaves.
  decode_key :
      InputChannelDecoder
      → List ℕ
      → (ℕ → InputEvent F)
      → Option (InputChannelDecoder × InputEvent F)
  decode_key d rest key = do
    (delta, _) ← decode_varint_i32 rest
    keycode ← next_keycode d.last_keycode delta
    some (record { last_keycode = keycode }, key keycode)

  decode_move : InputChannelDecoder → List ℕ → Option (InputChannelDecoder × InputEvent F)
  decode_move d rest = do
    (dx, consumed) ← decode_varint_i32 rest
    (dy, _) ← decode_varint_i32 (drop consumed rest)
    some (d, mouse_move (of_i32 dx) (of_i32 dy))

  decode_button :
      InputChannelDecoder
      → List ℕ
      → (MouseButton → InputEvent F)
      → Option (InputChannelDecoder × InputEvent F)
  decode_button d rest event = do
    byte ← first rest
    button ← wire_to_button byte
    some (d, event button)

  decode_disc : InputChannelDecoder → ℕ → List ℕ → Option (InputChannelDecoder × InputEvent F)
  decode_disc d disc rest =
      if disc == disc_key_press
      then decode_key d rest key_press
      else if disc == disc_key_release
      then decode_key d rest key_release
      else if disc == disc_mouse_move
      then decode_move d rest
      else if disc == disc_button_press
      then decode_button d rest mouse_button_press
      else if disc == disc_button_release
      then decode_button d rest mouse_button_release
      else none

  -- Where the result is `none` the decoder is as it was.
  pub decode : InputChannelDecoder → List ℕ → Option (InputChannelDecoder × InputEvent F)
  decode d [] = none
  decode d (disc ∷ rest) = decode_disc d disc rest
