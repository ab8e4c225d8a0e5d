-- ===== src/Platform/Ipc/Table/Tests.antt =====
-- core/platform/src/ipc.rs: tables of single buffers.
use lowband.Prelude.{ℕ, ◌-◌, ◌^◌, ◌≡◌, refl, some, List, [], ◌∷◌}
use lowband.Messaging.Bytes.{from_le_bytes}
use lowband.Platform.Ipc.Table.{
  slice, vtab_of, table_at, open_root, from_bytes, panics, returns, FbTable, field_pos,
}
use lowband.Platform.Ipc.Table.Checked.{IsVtableSize}

-- The vtable claims ten bytes, of which the buffer has four.
abbrev pub short_vtable : List ℕ
short_vtable = 4 ∷ 0 ∷ 0 ∷ 0 ∷ 252 ∷ 255 ∷ 255 ∷ 255 ∷ 10 ∷ 0 ∷ 4 ∷ 0 ∷ []

abbrev pub short_table : FbTable
short_table = record { buf = short_vtable; obj = 4; vtab = 8 }

pub from_bytes-short : from_bytes short_vtable ≡ returns (some short_table)
unfolding from_bytes open_root table_at slice vtab_of from_le_bytes
from_bytes-short = refl

pub IsVtableSize-short : IsVtableSize short_table (10 ∷ 0 ∷ [])
unfolding slice
IsVtableSize-short = refl

-- A vtable at the end of the address space: the test of the end wraps, and the next read panics.
abbrev far_vtable : List ℕ
far_vtable = 4 ∷ 0 ∷ 0 ∷ 0 ∷ 6 ∷ 0 ∷ 0 ∷ 0 ∷ []

field_pos_far :
    (from_bytes far_vtable
      ≡ returns (some (record { buf = far_vtable; obj = 4; vtab = 2 ^ 64 - 2 })))
    × (field_pos (record { buf = far_vtable; obj = 4; vtab = 2 ^ 64 - 2 }) 0 ≡ panics)
unfolding from_bytes open_root table_at slice vtab_of from_le_bytes field_pos
field_pos_far = (refl, refl)
