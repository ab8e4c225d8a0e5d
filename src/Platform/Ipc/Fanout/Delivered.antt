-- ===== src/Platform/Ipc/Fanout/Delivered.antt =====
-- core/platform/src/ipc.rs: what the clients of the server receive of the events that are broadcast.
use lowband.Prelude.{
  ℕ, zero, suc, ◌≤◌, arith, Bool, true, false, List, [], ◌∷◌, ◌++◌, length, ltb, append-nil,
  append_assoc, length-append, Bool-cases, ltb→lt, inl, inr,
}
use lowband.Platform.Ipc.{IpcEvent}
use lowband.Platform.Ipc.Codec.{Slot, encode_event}
use lowband.Platform.Ipc.Fanout.{
  Client, channel_bound, new_client, SendOutcome, accepted, full, disconnected, try_send, retained,
  retain, accept, write_round, write_at, broadcast,
}

-- `Sub xs ys`: the members of `xs` are, in order, some of those of `ys`.
pub data Sub : List (List ℕ) → List (List ℕ) → Type 0 where
  done : Sub [] []
  skip : {xs ys : List (List ℕ)} (y : List ℕ) → Sub xs ys → Sub xs (y ∷ ys)
  keep : {xs ys : List (List ℕ)} (x : List ℕ) → Sub xs ys → Sub (x ∷ xs) (x ∷ ys)

Sub-skip_last : {xs ys : List (List ℕ)} (f : List ℕ) → Sub xs ys → Sub xs (ys ++ (f ∷ []))
Sub-skip_last f done = skip f done
Sub-skip_last f (skip y s) = skip y (Sub-skip_last f s)
Sub-skip_last f (keep x s) = keep x (Sub-skip_last f s)

Sub-keep_last :
    {xs ys : List (List ℕ)} (f : List ℕ) → Sub xs ys → Sub (xs ++ (f ∷ [])) (ys ++ (f ∷ []))
Sub-keep_last f done = keep f done
Sub-keep_last f (skip y s) = skip y (Sub-keep_last f s)
Sub-keep_last f (keep x s) = keep x (Sub-keep_last f s)

Sub-nil : (ys : List (List ℕ)) → Sub [] ys
Sub-nil [] = done
Sub-nil (y ∷ ys) = skip y (Sub-nil ys)

Sub-append_left : (xs ys zs : List (List ℕ)) → Sub (xs ++ ys) zs → Sub xs zs
Sub-append_left [] ys zs s = Sub-nil zs
Sub-append_left (x ∷ xs) ys [] s = elim s [ ]
Sub-append_left (x ∷ xs) ys (_ ∷ zs) (skip z s) = skip z (Sub-append_left (x ∷ xs) ys zs s)
Sub-append_left (x ∷ xs) ys (_ ∷ zs) (keep _ s) = keep x (Sub-append_left xs ys zs s)

-- The server after the frames `sent` were broadcast: clients connect, frames are broadcast, and the
-- write threads go on or fail, in any order.
pub data Reached (finished_data : List Slot → List ℕ) : List (List ℕ) → List Client → Type 0 where
  started : Reached finished_data [] []
  accepting :
      {sent : List (List ℕ)} {clients : List Client}
      → Reached finished_data sent clients
      → Reached finished_data sent (accept clients)
  broadcasting :
      {sent : List (List ℕ)} {clients : List Client} (event : IpcEvent)
      → Reached finished_data sent clients
      → Reached finished_data
          (sent ++ (encode_event finished_data event ∷ []))
          (broadcast finished_data clients event)
  writing :
      {sent : List (List ℕ)} {clients : List Client} (i : ℕ) (ok : Bool)
      → Reached finished_data sent clients
      → Reached finished_data sent (write_at i ok clients)

-- A client's channel keeps its bound, and what it was and will be sent is in the order of broadcast.
pub record IsInOrder (sent : List (List ℕ)) (c : Client) : Type 0 where
  pub bounded : length c.queue ≤ channel_bound
  pub ordered : Sub (c.stream ++ c.queue) sent

abbrev pub AllInOrder : List (List ℕ) → List Client → Type 0
AllInOrder sent [] = Unit {0}
AllInOrder sent (c ∷ clients) = IsInOrder sent c × AllInOrder sent clients

same_client :
    (sent : List (List ℕ)) (c : Client) (frame : List ℕ)
    → IsInOrder sent c
    → IsInOrder (sent ++ (frame ∷ [])) c
same_client sent c frame h = record { bounded = h.bounded; ordered = Sub-skip_last frame h.ordered }

retained-AllInOrder :
    (sent : List (List ℕ)) (r : Client × SendOutcome) (clients : List Client)
    → IsInOrder sent r.0
    → AllInOrder sent clients
    → AllInOrder sent (retained r clients)
retained-AllInOrder sent (c, accepted) clients hc h = (hc, h)
retained-AllInOrder sent (c, full) clients hc h = (hc, h)
retained-AllInOrder sent (c, disconnected) clients hc h = h

try_send-IsInOrder :
    (sent : List (List ℕ)) (c : Client) (frame : List ℕ)
    → IsInOrder sent c
    → IsInOrder (sent ++ (frame ∷ [])) (try_send c frame).0
unfolding try_send
try_send-IsInOrder sent c frame h = elim (Bool-cases c.connected) [
  | inr gone ↦ simp gone (same_client sent c frame h)
  | inl open_end ↦ elim (Bool-cases (ltb (length c.queue) channel_bound)) [
    | inr filled ↦ simp (open_end, filled) (same_client sent c frame h)
    | inl room ↦
        let more =
          rw (append_assoc c.stream c.queue (frame ∷ [])) at (Sub-keep_last frame h.ordered) in
        simp (open_end, room)
          (record {
            bounded = omega (arith, length-append c.queue (frame ∷ []), ltb→lt _ _ room);
            ordered = more;
          })
  ]
]

retain-AllInOrder :
    (sent : List (List ℕ)) (clients : List Client) (frame : List ℕ)
    → AllInOrder sent clients
    → AllInOrder (sent ++ (frame ∷ [])) (retain frame clients)
unfolding retain
retain-AllInOrder sent [] frame h = tt
retain-AllInOrder sent (c ∷ clients) frame (hc, h) =
    retained-AllInOrder (sent ++ (frame ∷ [])) (try_send c frame) (retain frame clients)
      (try_send-IsInOrder sent c frame hc) (retain-AllInOrder sent clients frame h)

accept-AllInOrder :
    (sent : List (List ℕ)) (clients : List Client)
    → AllInOrder sent clients
    → AllInOrder sent (clients ++ (new_client ∷ []))
unfolding new_client
accept-AllInOrder sent [] h = (record { bounded = omega arith; ordered = Sub-nil sent }, tt)
accept-AllInOrder sent (c ∷ clients) (hc, h) = (hc, accept-AllInOrder sent clients h)

write_round-IsInOrder :
    (sent : List (List ℕ)) (ok : Bool) (queue : List (List ℕ)) (connected : Bool)
    (stream : List (List ℕ))
    → IsInOrder sent (record { queue = queue; connected = connected; stream = stream })
    → IsInOrder sent
        (write_round ok (record { queue = queue; connected = connected; stream = stream }))
unfolding write_round
write_round-IsInOrder sent ok [] connected stream h = h
write_round-IsInOrder sent true (frame ∷ queue) connected stream h = record {
  bounded = omega (arith, h.bounded);
  ordered = rw (append_assoc stream (frame ∷ []) queue) h.ordered;
}
write_round-IsInOrder sent false (frame ∷ queue) connected stream h = record {
  bounded = omega arith;
  ordered = rw (append-nil stream) (Sub-append_left stream (frame ∷ queue) sent h.ordered);
}

write_at-AllInOrder :
    (sent : List (List ℕ)) (i : ℕ) (ok : Bool) (clients : List Client)
    → AllInOrder sent clients
    → AllInOrder sent (write_at i ok clients)
unfolding write_at
write_at-AllInOrder sent i ok [] h = tt
write_at-AllInOrder sent zero ok (c ∷ clients) (hc, h) =
    (write_round-IsInOrder sent ok c.queue c.connected c.stream hc, h)
write_at-AllInOrder sent (suc i) ok (c ∷ clients) (hc, h) =
    (hc, write_at-AllInOrder sent i ok clients h)

-- Whatever the clients and their sockets do, no channel holds more than its bound, and each client is
-- sent some of the frames that were broadcast, each at most once and in their order.
pub Reached-AllInOrder :
    (finished_data : List Slot → List ℕ) (sent : List (List ℕ)) (clients : List Client)
    → Reached finished_data sent clients
    → AllInOrder sent clients
unfolding accept broadcast
Reached-AllInOrder finished_data _ _ started = tt
Reached-AllInOrder finished_data sent _ (accepting {clients = clients} r) =
    accept-AllInOrder sent clients (Reached-AllInOrder finished_data sent clients r)
Reached-AllInOrder finished_data _ _ (broadcasting {sent = sent} {clients = clients} event r) =
    retain-AllInOrder sent clients (encode_event finished_data event)
      (Reached-AllInOrder finished_data sent clients r)
Reached-AllInOrder finished_data sent _ (writing {clients = clients} i ok r) =
    write_at-AllInOrder sent i ok clients (Reached-AllInOrder finished_data sent clients r)
