-- ===== src/Platform/Ipc/Stream/Session.antt =====
-- core/platform/src/ipc.rs: a connection that carries the frames of events.
use lowband.Prelude.{
  ℕ, zero, suc, ◌<◌, ◌≡◌, ◌≢◌, refl, arith, List, [], ◌∷◌, ◌++◌, length, take, map, append_assoc,
  append-nil, ◌∙◌,
}
use lowband.Messaging.Bytes.{to_le_bytes, split_at_checked}
use lowband.Platform.Ipc.{IpcEvent}
use lowband.Platform.Ipc.Codec.{Slot, encode_event, kind_of, slots_of}
use lowband.Platform.Ipc.Codec.RoundTrip.{
  InRange, received, encode_event_lem, decode_frame-slots_of,
}
use lowband.Platform.Ipc.Format.{IsFlatBuffer}
use lowband.Platform.Ipc.Stream.Frames.{IsCut, read_frame-append, IsCut-prefix}
use lowband.Platform.Ipc.Stream.{err, unexpected_eof, sent, read_frame, closed, read_loop}

IsCut_nil : read_frame [] ≡ err unexpected_eof
unfolding read_frame split_at_checked
IsCut_nil = refl

module _ (finished_data : List Slot → List ℕ) where
  -- The frames of events, one behind the other.
  abbrev pub encode_all : List IpcEvent → List ℕ
  encode_all [] = []
  encode_all (event ∷ events) = encode_event finished_data event ++ encode_all events

  -- The builder writes the documented format for an event whose values are in range.
  abbrev pub IsCarried : IpcEvent → Type 0
  IsCarried event = IsFlatBuffer (finished_data (slots_of event)) (slots_of event) × InRange event

  abbrev pub AllCarried : List IpcEvent → Type 0
  AllCarried [] = Unit {0}
  AllCarried (event ∷ events) = IsCarried event × AllCarried events

  -- One round of the loop for a frame at the front.
  read_loop-encode_event :
      (fuel room : ℕ) (event : IpcEvent) (rest : List ℕ)
      → IsCarried event
      → read_loop (suc fuel) room (encode_event finished_data event ++ rest)
        ≡ sent room (received event) (λ (r : ℕ). read_loop fuel r rest)
  unfolding read_loop
  read_loop-encode_event fuel room event rest (h, r) =
      let fb = finished_data (slots_of event) in
      let e = encode_event_lem finished_data event h.small in
      let assoc =
        append_assoc (to_le_bytes 4 (length (kind_of event ∷ fb))) (kind_of event ∷ fb) rest in
      let f = read_frame-append (kind_of event) fb rest h.small in
      let g = decode_frame-slots_of fb event h r in rw (e, assoc, read_loop, f, g) refl

  -- A stream of frames that is cut, or ends, behind whole frames delivers their events in order, up to
  -- the sends that the receiver takes.
  read_loop-encode_all :
      (events : List IpcEvent) (fuel room : ℕ) (tail : List ℕ)
      → AllCarried events
      → length events < fuel
      → IsCut tail
      → read_loop fuel room (encode_all events ++ tail)
        ≡ record { delivered = take room (map received events); ending = closed }
  unfolding read_loop
  read_loop-encode_all events zero room tail all enough cut = elim enough [ ]
  read_loop-encode_all [] (suc fuel) zero tail all enough (e, cut) = rw (read_loop, cut) refl
  read_loop-encode_all [] (suc fuel) (suc room) tail all enough (e, cut) = rw (read_loop, cut) refl
  read_loop-encode_all (event ∷ events) (suc fuel) zero tail (c, all) enough cut =
      let assoc = append_assoc (encode_event finished_data event) (encode_all events) tail in
      let e = read_loop-encode_event fuel 0 event (encode_all events ++ tail) c in
      rw (assoc, e) refl
  read_loop-encode_all (event ∷ events) (suc fuel) (suc room) tail (c, all) enough cut =
      let assoc = append_assoc (encode_event finished_data event) (encode_all events) tail in
      let e = read_loop-encode_event fuel (suc room) event (encode_all events ++ tail) c in
      let ih = read_loop-encode_all events fuel room tail all (omega arith) cut in
      rw (assoc, e, ih) refl

  -- A connection that is cut inside of a frame: the events of the whole frames before it arrive in
  -- order, up to the sends that the receiver takes, and the read thread ends.
  pub read_loop_cut :
      (events : List IpcEvent) (next : IpcEvent) (fuel room : ℕ) (tail more : List ℕ)
      → AllCarried events
      → IsCarried next
      → length events < fuel
      → tail ++ more ≡ encode_event finished_data next
      → more ≢ []
      → read_loop fuel room (encode_all events ++ tail)
        ≡ record { delivered = take room (map received events); ending = closed }
  read_loop_cut events next fuel room tail more all (h, _) enough e some_byte =
      let f = e ∙ encode_event_lem finished_data next h.small in
      let cut =
        IsCut-prefix (kind_of next) (finished_data (slots_of next)) tail more h.small f some_byte in
      read_loop-encode_all events fuel room tail all enough cut

  -- A stream of whole frames.
  pub read_loop_all :
      (events : List IpcEvent) (fuel room : ℕ)
      → AllCarried events
      → length events < fuel
      → read_loop fuel room (encode_all events)
        ≡ record { delivered = take room (map received events); ending = closed }
  read_loop_all events fuel room all enough =
      rw (append-nil (encode_all events)) at
        (read_loop-encode_all events fuel room [] all enough (unexpected_eof, IsCut_nil))
