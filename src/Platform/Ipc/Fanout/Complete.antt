-- ===== src/Platform/Ipc/Fanout/Complete.antt =====
-- core/platform/src/ipc.rs: a shell that keeps up, from the server's channel to its own read loop.
use lowband.Prelude.{
  ℕ, ◌<◌, ◌≡◌, refl, Bool, true, List, [], ◌∷◌, ◌++◌, length, take, map, append-nil, append_assoc,
  sym, ap, lt→ltb, ◌∙◌,
}
use lowband.Platform.Ipc.{IpcEvent}
use lowband.Platform.Ipc.Codec.{Slot, encode_event}
use lowband.Platform.Ipc.Codec.RoundTrip.{received}
use lowband.Platform.Ipc.Stream.{read_loop, closed}
use lowband.Platform.Ipc.Stream.Session.{encode_all, AllCarried, read_loop_all}
use lowband.Platform.Ipc.Fanout.{
  Client, channel_bound, new_client, queued_frame, try_send, write_round,
}

try_send-room :
    (c : Client) (frame : List ℕ)
    → c.connected ≡ true
    → length c.queue < channel_bound
    → (try_send c frame).0 ≡ queued_frame frame c
unfolding try_send
try_send-room c frame open_end room =
    simp (open_end, lt→ltb (length c.queue) channel_bound room) refl

module _ (finished_data : List Slot → List ℕ) where
  -- A client since it connected, with the events that were broadcast meanwhile: there was room in its
  -- channel for each, and no write failed.
  pub data KeepsUp : List IpcEvent → Client → Type 0 where
    connecting : KeepsUp [] new_client
    sending :
        {events : List IpcEvent} {c : Client} (event : IpcEvent)
        → KeepsUp events c
        → length c.queue < channel_bound
        → KeepsUp (events ++ (event ∷ [])) (try_send c (encode_event finished_data event)).0
    writing :
        {events : List IpcEvent} {c : Client}
        → KeepsUp events c
        → KeepsUp events (write_round true c)

  -- The bytes of frames, as the socket carries them.
  abbrev pub joined : List (List ℕ) → List ℕ
  joined [] = []
  joined (frame ∷ frames) = frame ++ joined frames

  frames_of : List IpcEvent → List (List ℕ)
  frames_of events = map (encode_event finished_data) events

  joined-frames_of :
      (events : List IpcEvent) → joined (frames_of events) ≡ encode_all finished_data events
  unfolding frames_of
  joined-frames_of [] = refl
  joined-frames_of (event ∷ events) =
      ap (λ (l : List ℕ). encode_event finished_data event ++ l) (joined-frames_of events)

  map-append_one :
      (events : List IpcEvent) (event : IpcEvent)
      → frames_of (events ++ (event ∷ []))
        ≡ frames_of events ++ (encode_event finished_data event ∷ [])
  unfolding frames_of
  map-append_one [] event = refl
  map-append_one (e ∷ events) event =
      ap (λ (l : List (List ℕ)). encode_event finished_data e ∷ l) (map-append_one events event)

  record IsComplete (events : List IpcEvent) (c : Client) : Type 0 where
    pub open_end : c.connected ≡ true
    pub complete : c.stream ++ c.queue ≡ frames_of events

  queued-IsComplete :
      (events : List IpcEvent) (event : IpcEvent) (c : Client)
      → IsComplete events c
      → IsComplete (events ++ (event ∷ [])) (queued_frame (encode_event finished_data event) c)
  queued-IsComplete events event c h =
      let frame = encode_event finished_data event in
      record {
        open_end = h.open_end;
        complete =
            sym (append_assoc c.stream c.queue (frame ∷ []))
            ∙ (ap (λ (l : List (List ℕ)). l ++ (frame ∷ [])) h.complete
                ∙ sym (map-append_one events event));
      }

  write_round-IsComplete :
      (events : List IpcEvent) (queue : List (List ℕ)) (connected : Bool) (stream : List (List ℕ))
      → IsComplete events (record { queue = queue; connected = connected; stream = stream })
      → IsComplete events
          (write_round true (record { queue = queue; connected = connected; stream = stream }))
  unfolding write_round
  write_round-IsComplete events [] connected stream h = h
  write_round-IsComplete events (frame ∷ queue) connected stream h = record {
    open_end = h.open_end;
    complete = append_assoc stream (frame ∷ []) queue ∙ h.complete;
  }

  KeepsUp-IsComplete :
      (events : List IpcEvent) (c : Client) → KeepsUp events c → IsComplete events c
  unfolding new_client frames_of
  KeepsUp-IsComplete _ _ connecting = record { open_end = refl; complete = refl }
  KeepsUp-IsComplete _ _ (sending {events = events} {c = c} event k room) =
      let ih = KeepsUp-IsComplete events c k in
      rw (try_send-room c (encode_event finished_data event) ih.open_end room)
        (queued-IsComplete events event c ih)
  KeepsUp-IsComplete events _ (writing {c = c} k) =
      write_round-IsComplete events c.queue c.connected c.stream (KeepsUp-IsComplete events c k)

  -- A shell that keeps up, with all of its frames written, receives the events that were broadcast
  -- since it connected, all of them and in order, up to the sends that its receiver takes.
  pub KeepsUp-read_loop :
      (events : List IpcEvent) (c : Client) (fuel room : ℕ)
      → KeepsUp events c
      → c.queue ≡ []
      → AllCarried finished_data events
      → length events < fuel
      → read_loop fuel room (joined c.stream)
        ≡ record { delivered = take room (map received events); ending = closed }
  KeepsUp-read_loop events c fuel room k drained all enough =
      let h = KeepsUp-IsComplete events c k in
      let whole : c.stream ≡ frames_of events =
        sym (append-nil c.stream)
        ∙ (ap (λ (q : List (List ℕ)). c.stream ++ q) (sym drained) ∙ h.complete) in
      rw (whole, joined-frames_of events) (read_loop_all finished_data events fuel room all enough)
