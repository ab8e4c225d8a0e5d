-- ===== src/Platform/Ipc/Tests.antt =====
-- core/platform/src/ipc.rs: runs of the frames between the daemon and its shells.
use lowband.Prelude.{ℕ, ◌≡◌, refl, arith, Option, List, [], ◌∷◌, ◌++◌, ◌<◌, ◌↔◌, true, false, inr}
use lowband.Messaging.Bytes.{to_le_bytes, from_le_bytes}
use lowband.Platform.Ipc.{IpcEvent, panic_fired, elevation_requested, service_install}
use lowband.Platform.Ipc.Table.{slice, returns, panics}
use lowband.Platform.Ipc.Table.Tests.{
  short_vtable, short_table, from_bytes-short, IsVtableSize-short,
}
use lowband.Platform.Ipc.Codec.{
  Slot, encode_event, decode_frame, kind_of, slots_of, panic_slots, elev_req_slots,
}
use lowband.Platform.Ipc.Codec.Malformed.{
  decode_frame_panics_iff, decode_frame-Returns, VtableInside,
}
use lowband.Platform.Ipc.Codec.Overrun.{fields_of}
use lowband.Platform.Ipc.Table.Checked.{Overruns}
use lowband.Platform.Ipc.Format.{scalar_bytes, IsFlatBuffer, stored}
use lowband.Platform.Ipc.Format.Slots.{table_of, from_bytes-IsFlatBuffer}
use lowband.Platform.Ipc.Stream.{closed, read_loop}
use lowband.Platform.Ipc.Stream.Session.{encode_all, read_loop_cut}
use lowband.Platform.Ipc.Fanout.{
  Client, new_client, accept, broadcast, write_at, write_round, try_send,
}
use lowband.Platform.Ipc.Fanout.Delivered.{
  started, accepting, broadcasting, writing, AllInOrder, Reached-AllInOrder,
}
use lowband.Platform.Ipc.Fanout.Complete.{KeepsUp, connecting, sending, joined, KeepsUp-read_loop}

-- A buffer with one slot: root offset, padding, vtable, table.
abbrev one_slot : List Slot → List ℕ
one_slot [] = []
one_slot (s ∷ slots) =
    12 ∷ 0 ∷ 0 ∷ 0 ∷ 0 ∷ 0 ∷ 6 ∷ 0 ∷ 8 ∷ 0 ∷ 4 ∷ 0 ∷ 6 ∷ 0 ∷ 0 ∷ 0 ∷ scalar_bytes s.value

abbrev panicked : IpcEvent
panicked = panic_fired 70_000

panicked-IsFlatBuffer : IsFlatBuffer (one_slot (slots_of panicked)) (slots_of panicked)
unfolding slots_of panic_slots slice to_le_bytes scalar_bytes
panicked-IsFlatBuffer = record {
  obj = 12;
  vtab = 6;
  vt_size = 6;
  small = omega arith;
  obj_after = omega arith;
  root = refl;
  soffset = refl;
  vt_header = omega arith;
  vt_u16 = omega arith;
  vt_within = omega arith;
  size = refl;
  fields = (stored 4 (omega arith) (omega arith) (omega arith) refl refl, tt);
}

abbrev installing : IpcEvent
installing = elevation_requested service_install

installing-IsFlatBuffer : IsFlatBuffer (one_slot (slots_of installing)) (slots_of installing)
unfolding slots_of elev_req_slots slice to_le_bytes scalar_bytes
installing-IsFlatBuffer = record {
  obj = 12;
  vtab = 6;
  vt_size = 6;
  small = omega arith;
  obj_after = omega arith;
  root = refl;
  soffset = refl;
  vt_header = omega arith;
  vt_u16 = omega arith;
  vt_within = omega arith;
  size = refl;
  fields = (stored 4 (omega arith) (omega arith) (omega arith) refl refl, tt);
}

decode_frame_panics_iff_example :
    decode_frame (5 ∷ short_vtable) ≡ panics
    ↔ ((idx : ℕ) × (idx < fields_of 5) × Overruns short_table (10 ∷ 0 ∷ []) idx)
decode_frame_panics_iff_example =
    decode_frame_panics_iff 5 short_vtable short_table (10 ∷ 0 ∷ []) from_bytes-short
      IsVtableSize-short

-- The bytes of the panic frame make the reader panic.
decode_frame_short : decode_frame (5 ∷ short_vtable) ≡ panics
unfolding from_le_bytes
decode_frame_short =
    (decode_frame_panics_iff 5 short_vtable short_table (10 ∷ 0 ∷ []) from_bytes-short
        IsVtableSize-short).1
      (0, omega arith, omega arith)

panicked-VtableInside : VtableInside (one_slot (slots_of panicked))
unfolding slice slots_of panic_slots scalar_bytes to_le_bytes from_le_bytes panicked-IsFlatBuffer
panicked-VtableInside = inr (
  table_of (one_slot (slots_of panicked)) panicked-IsFlatBuffer,
  6 ∷ 0 ∷ [],
  from_bytes-IsFlatBuffer (one_slot (slots_of panicked)) panicked-IsFlatBuffer,
  refl,
  omega arith,
)

decode_frame-Returns_example :
    (result : Option IpcEvent) × (decode_frame (2 ∷ one_slot (slots_of panicked)) ≡ returns result)
decode_frame-Returns_example =
    decode_frame-Returns 2 (one_slot (slots_of panicked)) panicked-VtableInside

-- One event, and the first seven bytes of the next.
read_loop_cut_example :
    read_loop 3 5 (encode_all one_slot (panicked ∷ []) ++ (18 ∷ 0 ∷ 0 ∷ 0 ∷ 3 ∷ 12 ∷ 0 ∷ []))
    ≡ record { delivered = panicked ∷ []; ending = closed }
unfolding encode_event to_le_bytes kind_of slots_of elev_req_slots scalar_bytes
read_loop_cut_example =
    read_loop_cut one_slot (panicked ∷ []) installing 3 5 (18 ∷ 0 ∷ 0 ∷ 0 ∷ 3 ∷ 12 ∷ 0 ∷ [])
      (0 ∷ 0 ∷ 0 ∷ 0 ∷ 6 ∷ 0 ∷ 8 ∷ 0 ∷ 4 ∷ 0 ∷ 6 ∷ 0 ∷ 0 ∷ 0 ∷ 2 ∷ [])
      ((panicked-IsFlatBuffer, omega arith), tt) (installing-IsFlatBuffer, tt) (omega arith) refl
      (λ e. cc)

-- Two clients, of which the first one's socket fails.
Reached-AllInOrder_example :
    AllInOrder
      (encode_event one_slot panicked ∷ [])
      (write_at 0 true (write_at 0 false (broadcast one_slot (accept (accept [])) panicked)))
Reached-AllInOrder_example =
    Reached-AllInOrder one_slot (encode_event one_slot panicked ∷ [])
      (write_at 0 true (write_at 0 false (broadcast one_slot (accept (accept [])) panicked)))
      (writing 0 true (writing 0 false (broadcasting panicked (accepting (accepting started)))))

abbrev informed : Client
informed = write_round true (try_send new_client (encode_event one_slot panicked)).0

KeepsUp-read_loop_example :
    read_loop 2 5 (joined one_slot informed.stream)
    ≡ record { delivered = panicked ∷ []; ending = closed }
unfolding new_client try_send write_round
KeepsUp-read_loop_example =
    KeepsUp-read_loop one_slot (panicked ∷ []) informed 2 5
      (KeepsUp.writing (sending panicked connecting (omega arith))) refl
      ((panicked-IsFlatBuffer, omega arith), tt) (omega arith)
