-- ===== src/Platform/Input/Channel/Tests.antt =====
-- core/platform/src/input_channel_sender.rs: runs of the input channel. Displacements are halves of a
-- pixel, as integers.
use lowband.Prelude.{
  false, ℕ, zero, suc, ◌+◌, ◌*◌, ◌/◌, ◌≡◌, refl, arith, none, some, List, [], ◌∷◌, length,
}
use lowband.Prelude.Signed.{ℤ, pos, negsuc, ◌+ℤ◌}
use lowband.Platform.Input.{encode_loop, encode_varint_i32}
use lowband.Platform.Input.Channel.{
  InputEvent, key_press, key_release, mouse_move, mouse_button_press, right, encode, decode,
  new_sender, new_decoder,
}
use lowband.Platform.Input.Channel.Session.{handed_over, handed_over-new, encode_far}
use lowband.Platform.Input.Channel.Coalescer.{
  Displacement, new, accumulate_all, flush, flush-accumulate_all,
}

abbrev halved : ℤ → ℤ
halved (pos n) = pos ((n + 1) / 2)
halved (negsuc n) = negsuc (n / 2)

abbrev doubled : ℤ → ℤ
doubled (pos n) = pos (2 * n)
doubled (negsuc n) = negsuc (2 * n + 1)

encode_varint_far :
    (encode_varint_i32 (negsuc 0) ≡ 127 ∷ [])
    × (encode_varint_i32 (pos 64) ≡ 192 ∷ (0 ∷ []))
    × (length (encode_varint_i32 (negsuc 2_147_483_647)) ≡ 5)
unfolding encode_varint_i32 encode_loop
encode_varint_far = (refl, refl, refl)

abbrev typed : List (InputEvent ℤ)
typed =
    key_press 0x41
    ∷ key_release 0x41
    ∷ mouse_move (pos 7) (negsuc 4)
    ∷ key_press 0x10
    ∷ mouse_button_press right
    ∷ []

handed_over-new_example :
    handed_over halved doubled new_sender new_decoder typed
    ≡ some (
        key_press 0x41
        ∷ key_release 0x41
        ∷ mouse_move (pos 8) (negsuc 5)
        ∷ key_press 0x10
        ∷ mouse_button_press right
        ∷ [])
handed_over-new_example = handed_over-new halved doubled typed (omega arith)

encode_far_example :
    (frame : List ℕ) × (encode halved doubled
        (record { last_keycode = 1 })
        (key_press 2_147_483_648)
      ≡ (record { last_keycode = 2_147_483_648 }, some frame))
    × (decode halved doubled (record { last_keycode = 1 }) frame ≡ none)
encode_far_example =
    encode_far halved doubled 1 2_147_483_648 (omega arith) (omega arith) (omega arith)
      (omega arith)

-- Subtraction and rounding of halves.
abbrev negated : ℤ → ℤ
negated (pos zero) = pos 0
negated (pos (suc n)) = negsuc n
negated (negsuc n) = pos (n + 1)

abbrev halves : Displacement
halves = record {
  F = ℤ;
  zero = pos 0;
  add = λ a b. a +ℤ b;
  sub = λ a b. a +ℤ negated b;
  round = λ a. doubled (halved a);
  round_i32 = halved;
  of_i32 = doubled;
}

flush-accumulate_all_example :
    (frame : List ℕ) × (flush halves
        (accumulate_all halves (new halves) ((pos 3, negsuc 0) ∷ ((pos 2, pos 4) ∷ [])))
        (record { last_keycode = 9 })
      ≡ (
        record { pending_dx = negsuc 0; pending_dy = negsuc 0; has_pending = false },
        record { last_keycode = 9 },
        some frame,
      ))
    × (decode halved doubled (record { last_keycode = 9 }) frame
        ≡ some (record { last_keycode = 9 }, mouse_move (pos 6) (pos 4)))
    × (flush halves
          (record { pending_dx = negsuc 0; pending_dy = negsuc 0; has_pending = false })
          (record { last_keycode = 9 })
        ≡ (
          record { pending_dx = negsuc 0; pending_dy = negsuc 0; has_pending = false },
          record { last_keycode = 9 },
          none,
        ))
unfolding new
flush-accumulate_all_example =
    flush-accumulate_all halves (new halves) (pos 3, negsuc 0) ((pos 2, pos 4) ∷ []) 9 (omega arith)
      (omega arith)
