-- ===== src/Platform/Input/Channel/Coalescer.antt =====
-- core/platform/src/input_channel_sender.rs: `MouseMoveCoalescer`, over the operations of an f64 that it
-- uses.
use lowband.Prelude.{
  ℕ, ◌≡◌, refl, Bool, true, false, Option, none, some, List, [], ◌∷◌, if◌then◌else◌,
}
use lowband.Prelude.Signed.{ℤ}
use lowband.Platform.Input.Varint.{IsI32}
use lowband.Platform.Input.Channel.{mouse_move, InputChannelSender, encode, decode}
use lowband.Platform.Input.Channel.Session.{Arrives-move}

-- `+`, `-`, `round`, `round() as i32` and `as f64`.
pub record Displacement : Type 1 where
  pub F : Type 0
  pub zero : F
  pub add : F → F → F
  pub sub : F → F → F
  pub round : F → F
  pub round_i32 : F → ℤ
  pub of_i32 : ℤ → F

module _ (f : Displacement) where
  open f use {F, zero, add, sub, round, round_i32, of_i32}

  pub record MouseMoveCoalescer : Type 0 where
    pub pending_dx : F
    pub pending_dy : F
    pub has_pending : Bool

  unfoldable pub new : MouseMoveCoalescer
  new = record { pending_dx = zero; pending_dy = zero; has_pending = false }

  pub accumulate : MouseMoveCoalescer → F → F → MouseMoveCoalescer
  accumulate c dx dy = record {
    pending_dx = add c.pending_dx dx;
    pending_dy = add c.pending_dy dy;
    has_pending = true;
  }

  -- The coalescer, the sender and the frame.
  pub flush :
      MouseMoveCoalescer
      → InputChannelSender
      → MouseMoveCoalescer × InputChannelSender × Option (List ℕ)
  flush c s =
      if c.has_pending
      then (let int_dx = round c.pending_dx in
          let int_dy = round c.pending_dy in
          let (s', frame) = encode round_i32 of_i32 s (mouse_move int_dx int_dy) in
          (
            record {
              pending_dx = sub c.pending_dx int_dx;
              pending_dy = sub c.pending_dy int_dy;
              has_pending = false;
            },
            s',
            frame,
          ))
      else (c, s, none)

  -- The moves of one tick, and their sums from what was carried forward.
  pub accumulate_all : MouseMoveCoalescer → List (F × F) → MouseMoveCoalescer
  accumulate_all c [] = c
  accumulate_all c ((dx, dy) ∷ moves) = accumulate_all (accumulate c dx dy) moves

  abbrev pub sum : (F × F → F) → F → List (F × F) → F
  sum part from [] = from
  sum part from (m ∷ moves) = sum part (add from (part m)) moves

  -- The state after a tick with moves, and after its flush.
  abbrev pub gathered : MouseMoveCoalescer → List (F × F) → MouseMoveCoalescer
  gathered c moves = record {
    pending_dx = sum (λ (m : F × F). m.0) c.pending_dx moves;
    pending_dy = sum (λ (m : F × F). m.1) c.pending_dy moves;
    has_pending = true;
  }

  abbrev pub carried_forward : MouseMoveCoalescer → MouseMoveCoalescer
  carried_forward c = record {
    pending_dx = sub c.pending_dx (round c.pending_dx);
    pending_dy = sub c.pending_dy (round c.pending_dy);
    has_pending = false;
  }

  accumulate_all-gathered :
      (c : MouseMoveCoalescer) (m : F × F) (moves : List (F × F))
      → accumulate_all c (m ∷ moves) ≡ gathered c (m ∷ moves)
  unfolding accumulate_all accumulate
  accumulate_all-gathered c m [] = refl
  accumulate_all-gathered c m (m' ∷ moves) = accumulate_all-gathered (accumulate c m.0 m.1) m' moves

  -- A tick with moves is flushed as one frame, which the other end decodes to their rounded sum, what
  -- was carried forward included. The remainder is carried on, and a second flush sends nothing.
  pub flush-accumulate_all :
      (c : MouseMoveCoalescer) (m : F × F) (moves : List (F × F)) (last : ℕ)
      → IsI32 (round_i32 (round (gathered c (m ∷ moves)).pending_dx))
      → IsI32 (round_i32 (round (gathered c (m ∷ moves)).pending_dy))
      → (frame : List ℕ) × (flush (accumulate_all c (m ∷ moves)) (record { last_keycode = last })
          ≡ (carried_forward (gathered c (m ∷ moves)), record { last_keycode = last }, some frame))
        × (decode round_i32 of_i32 (record { last_keycode = last }) frame
            ≡ some (
              record { last_keycode = last },
              mouse_move
                  (of_i32 (round_i32 (round (gathered c (m ∷ moves)).pending_dx)))
                  (of_i32 (round_i32 (round (gathered c (m ∷ moves)).pending_dy))),
            ))
        × (flush (carried_forward (gathered c (m ∷ moves))) (record { last_keycode = last })
            ≡ (carried_forward (gathered c (m ∷ moves)), record { last_keycode = last }, none))
  unfolding flush
  flush-accumulate_all c m moves last hx hy =
      let g = gathered c (m ∷ moves) in
      let (frame, sent, read) =
        Arrives-move round_i32 of_i32 last (round g.pending_dx) (round g.pending_dy) hx hy in
      (frame, rw (accumulate_all-gathered c m moves, sent) refl, read, refl)
