-- ===== src/Platform/Ipc/Stream/Ends.antt =====
-- core/platform/src/ipc.rs: the read loop ends on every stream.
use lowband.Prelude.{
  ℕ, zero, suc, ◌<◌, ◌≡◌, ◌≢◌, ◌⊎◌, Option, refl, arith, none, some, List, ◌++◌, length, inl, inr,
  length-append,
}
use lowband.Platform.Ipc.{IpcEvent}
use lowband.Platform.Ipc.Table.{Outcome, panics, returns}
use lowband.Platform.Ipc.Codec.{decode_frame}
use lowband.Platform.Ipc.Stream.{ok, read_frame, ReadRun, out_of_fuel, sent, read_loop}
use lowband.Platform.Ipc.Stream.Frames.{read_frame-ok, read_frame-cases}

-- A frame takes its four bytes of length off the stream.
read_frame-lt :
    (stream body rest : List ℕ) → read_frame stream ≡ ok (body, rest) → length rest < length stream
read_frame-lt stream body rest h =
    let (four, joined, measured, _) = read_frame-ok stream body rest h in
    rw joined (omega (arith, measured, length-append four (body ++ rest), length-append body rest))

Outcome-cases :
    (o : Outcome (Option IpcEvent))
    → (o ≡ panics) ⊎ ((o ≡ returns none) ⊎ ((event : IpcEvent) × (o ≡ returns (some event))))
Outcome-cases panics = inl refl
Outcome-cases (returns none) = inr (inl refl)
Outcome-cases (returns (some event)) = inr (inr (event, refl))

decode_frame-cases :
    (body : List ℕ)
    → (decode_frame body ≡ panics)
      ⊎ ((decode_frame body ≡ returns none)
          ⊎ ((event : IpcEvent) × (decode_frame body ≡ returns (some event))))
decode_frame-cases body = Outcome-cases (decode_frame body)

sent_ends :
    (room : ℕ) (event : IpcEvent) (next : ℕ → ReadRun)
    → ((r : ℕ) → (next r).ending ≢ out_of_fuel)
    → (sent room event next).ending ≢ out_of_fuel
sent_ends zero event next h = λ e. cc
sent_ends (suc room) event next h = h room

-- With fuel for each byte the loop comes to its own end, whatever bytes arrive.
read_loop_ends :
    (fuel room : ℕ) (stream : List ℕ)
    → length stream < fuel
    → (read_loop fuel room stream).ending ≢ out_of_fuel
unfolding read_loop
read_loop_ends zero room stream enough = elim enough [ ]
read_loop_ends (suc fuel) room stream enough = elim (read_frame-cases stream) [
  | inl (e, h) ↦ rw (read_loop, h) (λ bad. cc)
  | inr (body, rest, h) ↦
      let shorter = read_frame-lt stream body rest h in
      let ih = λ (r : ℕ). read_loop_ends fuel r rest (omega arith) in
      elim (decode_frame-cases body) [
        | inl e ↦ rw (read_loop, h, e) (λ bad. cc)
        | inr (inl e) ↦ rw (read_loop, h, e) (ih room)
        | inr (inr (event, e)) ↦
            rw (read_loop, h, e) (sent_ends room event (λ (r : ℕ). read_loop fuel r rest) ih)
      ]
]
