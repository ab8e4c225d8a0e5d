-- ===== src/Platform/Input/Channel/Session.antt =====
-- core/platform/src/input_channel_sender.rs: events that pass from the sender to the decoder.
use lowband.Prelude.{
  ℕ, ◌+◌, ◌^◌, ◌≤◌, ◌<◌, ◌≡◌, refl, arith, Option, none, some, List, [], ◌∷◌, ◌++◌, length, drop,
  map, length-append, append-nil,
}
use lowband.Prelude.Signed.{ℤ}
use lowband.Platform.Input.{encode_varint_i32}
use lowband.Platform.Input.Varint.{
  IsI32, length-encode_varint_i32, decode_varint_i32-encode_varint_i32,
}
use lowband.Platform.Input.Channel.Keys.{next_keycode-key_delta, next_keycode_lost}
use lowband.Platform.Input.Channel.{
  InputEvent, key_press, key_release, mouse_move, mouse_button_press, mouse_button_release,
  MouseButton, InputChannelSender, InputChannelDecoder, key_delta, encode, encode_event, ◌>>=◌,
  new_sender, new_decoder, within_cap, decode, decode_disc, decode_key, decode_move, decode_button,
  wire_to_button, button_to_wire,
}

drop-length : (xs ys : List ℕ) → drop (length xs) (xs ++ ys) ≡ ys
drop-length [] ys = refl
drop-length (x ∷ xs) ys = drop-length xs ys

button_lem : (b : MouseButton) → wire_to_button (button_to_wire b) ≡ some b
button_lem b = ground arith

within_cap_lem : (frame : List ℕ) → length frame ≤ 11 → within_cap frame ≡ some frame
within_cap_lem frame h = ground arith

module _ {F : Type 0} (round_i32 : F → ℤ) (of_i32 : ℤ → F) where
  -- What arrives of an event: a move is rounded.
  abbrev pub carried : InputEvent F → InputEvent F
  carried (mouse_move dx dy) = mouse_move (of_i32 (round_i32 dx)) (of_i32 (round_i32 dy))
  carried event = event

  -- A platform key code below 2 ^ 31, and a displacement that is cast to an i32.
  abbrev pub IsInput : InputEvent F → Type 0
  IsInput (key_press k) = k < 2 ^ 31
  IsInput (key_release k) = k < 2 ^ 31
  IsInput (mouse_move dx dy) = IsI32 (round_i32 dx) × IsI32 (round_i32 dy)
  IsInput (mouse_button_press b) = Unit {0}
  IsInput (mouse_button_release b) = Unit {0}

  -- The last key behind an event.
  abbrev pub key_after : ℕ → InputEvent F → ℕ
  key_after last (key_press k) = k
  key_after last (key_release k) = k
  key_after last event = last

  -- One event on its way, whatever the last key is.
  abbrev pub Arrives : ℕ → InputEvent F → Type 0
  Arrives last event =
      (frame : List ℕ) × (encode round_i32 of_i32 (record { last_keycode = last }) event
        ≡ (record { last_keycode = key_after last event }, some frame))
      × (decode round_i32 of_i32 (record { last_keycode = last }) frame
          ≡ some (record { last_keycode = key_after last event }, carried event))

  arriving_key :
      (last k disc : ℕ) (key : ℕ → InputEvent F)
      → k < 2 ^ 31
      → last < 2 ^ 31
      → (within_cap (disc ∷ encode_varint_i32 (key_delta k last))
          ≡ some (disc ∷ encode_varint_i32 (key_delta k last)))
        × (decode_key round_i32 of_i32
              (record { last_keycode = last })
              (encode_varint_i32 (key_delta k last))
              key
            ≡ some (record { last_keycode = k }, key k))
  unfolding decode_key
  arriving_key last k disc key hk hl =
      let delta = key_delta k last in
      let (e, i32) = next_keycode-key_delta k last hk hl in
      let len = length-encode_varint_i32 delta in
      let read =
        rw (append-nil (encode_varint_i32 delta)) at
          (decode_varint_i32-encode_varint_i32 delta [] i32) in
      (within_cap_lem (disc ∷ encode_varint_i32 delta) (omega (arith, len)), rw (read, e) refl)

  pub Arrives-move :
      (last : ℕ) (dx dy : F)
      → IsI32 (round_i32 dx)
      → IsI32 (round_i32 dy)
      → Arrives last (mouse_move dx dy)
  unfolding encode encode_event decode decode_disc decode_move
  Arrives-move last dx dy hx hy =
      let xs = encode_varint_i32 (round_i32 dx) in
      let ys = encode_varint_i32 (round_i32 dy) in
      let read = decode_varint_i32-encode_varint_i32 (round_i32 dx) ys hx in
      let read' =
        rw (append-nil ys) at (decode_varint_i32-encode_varint_i32 (round_i32 dy) [] hy) in
      let cap = within_cap_lem (0x10 ∷ (xs ++ ys)) (
        omega (
          arith,
          length-append xs ys,
          length-encode_varint_i32 (round_i32 dx),
          length-encode_varint_i32 (round_i32 dy),
        )) in
      (0x10 ∷ (xs ++ ys), rw cap refl, rw (read, drop-length xs ys, read') refl)

  arrives : (last : ℕ) (event : InputEvent F) → last < 2 ^ 31 → IsInput event → Arrives last event
  unfolding encode encode_event decode decode_disc decode_button
  arrives last (key_press k) hl h =
      let (cap, read) = arriving_key last k 1 key_press h hl in
      (1 ∷ encode_varint_i32 (key_delta k last), rw cap refl, read)
  arrives last (key_release k) hl h =
      let (cap, read) = arriving_key last k 2 key_release h hl in
      (2 ∷ encode_varint_i32 (key_delta k last), rw cap refl, read)
  arrives last (mouse_move dx dy) hl (hx, hy) = Arrives-move last dx dy hx hy
  arrives last (mouse_button_press b) hl h =
      (0x20 ∷ (button_to_wire b ∷ []), refl, rw (button_lem b) refl)
  arrives last (mouse_button_release b) hl h =
      (0x21 ∷ (button_to_wire b ∷ []), refl, rw (button_lem b) refl)

  -- The events of a session as the decoder hands them on, where each frame is sent and accepted.
  pub handed_over :
      InputChannelSender → InputChannelDecoder → List (InputEvent F) → Option (List (InputEvent F))
  handed_over s d [] = some []
  handed_over s d (event ∷ events) = do
    let sent = encode round_i32 of_i32 s event
    frame ← sent.1
    (d', event') ← decode round_i32 of_i32 d frame
    events' ← handed_over sent.0 d' events
    some (event' ∷ events')

  abbrev pub AllInput : List (InputEvent F) → Type 0
  AllInput [] = Unit {0}
  AllInput (event ∷ events) = IsInput event × AllInput events

  key_after_lem :
      (last : ℕ) (event : InputEvent F)
      → last < 2 ^ 31
      → IsInput event
      → key_after last event < 2 ^ 31
  key_after_lem last (key_press k) hl h = h
  key_after_lem last (key_release k) hl h = h
  key_after_lem last (mouse_move dx dy) hl h = hl
  key_after_lem last (mouse_button_press b) hl h = hl
  key_after_lem last (mouse_button_release b) hl h = hl

  handed_over-carried :
      (last : ℕ) (events : List (InputEvent F))
      → last < 2 ^ 31
      → AllInput events
      → handed_over (record { last_keycode = last }) (record { last_keycode = last }) events
        ≡ some (map carried events)
  unfolding handed_over
  handed_over-carried last [] hl h = refl
  handed_over-carried last (event ∷ events) hl (he, h) =
      let (frame, sent, read) = arrives last event hl he in
      let ih =
        handed_over-carried (key_after last event) events (key_after_lem last event hl he) h in
      rw (sent, read, ih) refl

  -- Every event of a session is sent and decoded, in order and with its key code, button or rounded
  -- displacement, where the key codes are below 2 ^ 31 and the cast of a displacement is an i32.
  pub handed_over-new :
      (events : List (InputEvent F))
      → AllInput events
      → handed_over new_sender new_decoder events ≡ some (map carried events)
  unfolding new_sender new_decoder
  handed_over-new events h = handed_over-carried 0 events (omega arith) h

  -- A key code from 2 ^ 31 on, nearer than 2 ^ 31 above the last one, is sent in a frame that the
  -- decoder refuses.
  pub encode_far :
      (last k : ℕ)
      → 2 ^ 31 ≤ k
      → k < 2 ^ 32
      → last < 2 ^ 31
      → k < last + 2 ^ 31
      → (frame : List ℕ) × (encode round_i32 of_i32 (record { last_keycode = last }) (key_press k)
          ≡ (record { last_keycode = k }, some frame))
        × (decode round_i32 of_i32 (record { last_keycode = last }) frame ≡ none)
  unfolding encode encode_event decode decode_disc decode_key
  encode_far last k hk u32 hl near =
      let delta = key_delta k last in
      let (e, i32) = next_keycode_lost k last hk u32 hl near in
      let len = length-encode_varint_i32 delta in
      let read =
        rw (append-nil (encode_varint_i32 delta)) at
          (decode_varint_i32-encode_varint_i32 delta [] i32) in
      (
        1 ∷ encode_varint_i32 delta,
        rw (within_cap_lem (1 ∷ encode_varint_i32 delta) (omega (arith, len))) refl,
        rw (read, e) refl,
      )
