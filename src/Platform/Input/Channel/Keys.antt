-- ===== src/Platform/Input/Channel/Keys.antt =====
-- core/platform/src/input_channel_sender.rs: key codes from their differences.
use lowband.Prelude.{
  ℕ, ◌+◌, ◌-◌, ◌%◌, ◌^◌, ◌≤◌, ◌<◌, ◌≡◌, arith, none, some, leb, Bool-cases, leb→le, inl, inr,
}
use lowband.Prelude.Signed.{pos, negsuc}
use lowband.Platform.Input.Varint.{IsI32, as_i32-pos, as_i32-negsuc}
use lowband.Platform.Input.Channel.{key_delta, next_keycode}

-- The differences that are sent, and the keys that they lead to.
key_delta_up : (k last : ℕ) → last ≤ k → k < last + 2 ^ 31 → key_delta k last ≡ pos (k - last)
unfolding key_delta
key_delta_up k last h small =
    let e : (k + 2 ^ 32 - last) % 2 ^ 32 ≡ k - last = omega arith in
    rw e (as_i32-pos (k - last) (omega arith))

key_delta_down :
    (k last : ℕ)
    → k < last
    → last ≤ k + 2 ^ 31
    → last < 2 ^ 32
    → key_delta k last ≡ negsuc (last - k - 1)
unfolding key_delta
key_delta_down k last h small u32 =
    let e : (k + 2 ^ 32 - last) % 2 ^ 32 ≡ 2 ^ 32 - 1 - (last - k - 1) = omega arith in
    rw e (as_i32-negsuc (last - k - 1) (omega arith))

next_keycode_up : (last m : ℕ) → last + m < 2 ^ 31 → next_keycode last (pos m) ≡ some (last + m)
unfolding next_keycode
next_keycode_up last m h = rw (as_i32-pos last (omega arith)) (ground arith)

next_keycode_down :
    (last m : ℕ) → last < 2 ^ 31 → m < last → next_keycode last (negsuc m) ≡ some (last - m - 1)
unfolding next_keycode
next_keycode_down last m hl h = rw (as_i32-pos last hl) (ground arith)

-- A key below 2 ^ 31 comes back from its difference to the last one.
pub next_keycode-key_delta :
    (k last : ℕ)
    → k < 2 ^ 31
    → last < 2 ^ 31
    → (next_keycode last (key_delta k last) ≡ some k) × IsI32 (key_delta k last)
next_keycode-key_delta k last hk hl = elim (Bool-cases (leb last k)) [
  | inl h ↦
      let le = leb→le last k h in
      let e : last + (k - last) ≡ k = omega arith in
      rw (key_delta_up k last le (omega arith))
        (rw e at (next_keycode_up last (k - last) (omega arith)), omega arith)
  | inr h ↦
      let lt : k < last = ground (arith, h) in
      let e : last - (last - k - 1) - 1 ≡ k = omega arith in
      rw (key_delta_down k last lt (omega arith) (omega arith))
        (rw e at (next_keycode_down last (last - k - 1) hl (omega arith)), omega arith)
]

refused :
    (k last : ℕ)
    → 2 ^ 31 ≤ k
    → k < 2 ^ 32
    → last < 2 ^ 31
    → k < last + 2 ^ 31
    → next_keycode last (pos (k - last)) ≡ none
unfolding next_keycode
refused k last hk u32 hl near = rw (as_i32-pos last hl) (ground arith)

-- A key whose difference to the last one is beyond an i32: the decoder refuses the frame.
pub next_keycode_lost :
    (k last : ℕ)
    → 2 ^ 31 ≤ k
    → k < 2 ^ 32
    → last < 2 ^ 31
    → k < last + 2 ^ 31
    → (next_keycode last (key_delta k last) ≡ none) × IsI32 (key_delta k last)
next_keycode_lost k last hk u32 hl near =
    rw (key_delta_up k last (omega arith) near) (refused k last hk u32 hl near, omega arith)
