-- ===== src/Platform/Ipc/Table/Reading.antt =====
-- core/platform/src/ipc.rs: what the table reader finds in a buffer of the documented format.
use lowband.Prelude.{
  ℕ, zero, suc, ◌+◌, ◌-◌, ◌*◌, ◌%◌, ◌^◌, ◌≤◌, ◌<◌, ◌≡◌, refl, arith, some, none, List, [], ◌∷◌,
  length, take, drop, get_elem?,
}
use lowband.Messaging.Bytes.{to_le_bytes, from_le_bytes-to_le_bytes}
use lowband.Platform.Ipc.Table.{
  slice, index, returns, FbTable, vtab_of, table_at, open_root, from_bytes, entry_pos, slot_pos,
  field_pos, u8_from, u8_at, u32_from, u32_at, f32_at,
}

-- A slice that is there ends within the buffer.
slice-le : (buf bs : List ℕ) (a b : ℕ) → slice buf a b ≡ returns bs → (a ≤ b) × (b ≤ length buf)
unfolding slice
slice-le buf bs a b h = ground arith

get_elem?-take-drop :
    (buf : List ℕ) (p v : ℕ) → take 1 (drop p buf) ≡ v ∷ [] → get_elem? buf p ≡ some v
get_elem?-take-drop [] zero v h = cc
get_elem?-take-drop [] (suc p) v h = cc
get_elem?-take-drop (x ∷ buf) zero v h = cc
get_elem?-take-drop (x ∷ buf) (suc p) v h = get_elem?-take-drop buf p v h

-- A slice of one byte is that byte.
index-slice :
    (buf : List ℕ) (p v : ℕ) → slice buf p (p + 1) ≡ returns (v ∷ []) → index buf p ≡ returns v
unfolding slice index
index-slice buf p v h =
    let one : p + 1 - p ≡ 1 = omega arith in
    let e : take (p + 1 - p) (drop p buf) ≡ v ∷ [] = ground arith in
    let f : take 1 (drop p buf) ≡ v ∷ [] = rw one at e in rw (get_elem?-take-drop buf p v f) refl

-- The signed offset leads back to the vtable.
vtab_of-soffset :
    (obj vtab : ℕ)
    → obj < 2 ^ 31
    → vtab < 2 ^ 31
    → vtab_of obj ((obj + 2 ^ 32 - vtab) % 2 ^ 32) ≡ vtab
unfolding vtab_of
vtab_of-soffset obj vtab ho hv = ground arith

-- The table is found behind its root offset.
pub from_bytes-root :
    (buf : List ℕ) (obj vtab : ℕ)
    → length buf < 2 ^ 31
    → 4 ≤ obj
    → vtab + 4 ≤ length buf
    → slice buf 0 4 ≡ returns (to_le_bytes 4 obj)
    → slice buf obj (obj + 4) ≡ returns (to_le_bytes 4 ((obj + 2 ^ 32 - vtab) % 2 ^ 32))
    → from_bytes buf ≡ returns (some (record { buf = buf; obj = obj; vtab = vtab }))
unfolding from_bytes open_root table_at
from_bytes-root buf obj vtab small after within root soffset =
    let (_, inside) = slice-le buf _ obj (obj + 4) soffset in
    let e = from_le_bytes-to_le_bytes 4 obj (omega arith) in
    let f = from_le_bytes-to_le_bytes 4 ((obj + 2 ^ 32 - vtab) % 2 ^ 32) (omega arith) in
    let g = vtab_of-soffset obj vtab (omega arith) (omega arith) in
    ground (arith, root, soffset, e, f, g)

module _ (t : FbTable) (idx vt_size : ℕ)
    (size : slice t.buf t.vtab (t.vtab + 2) ≡ returns (to_le_bytes 2 vt_size))
    (u16 : vt_size < 2 ^ 16) (small : t.vtab < 2 ^ 31) where
  -- A slot beyond the end of the vtable has no position.
  pub field_pos-beyond : vt_size < 4 + idx * 2 + 2 → field_pos t idx ≡ returns none
  unfolding field_pos slot_pos
  field_pos-beyond h =
      let e = from_le_bytes-to_le_bytes 2 vt_size (omega arith) in
      let f : (t.vtab + 2) % 2 ^ 64 ≡ t.vtab + 2 = omega arith in ground (arith, size, e, f)

  -- A slot within the vtable has the position that its entry says.
  pub field_pos-entry :
      (entry : ℕ)
      → entry < 2 ^ 16
      → 4 + idx * 2 + 2 ≤ vt_size
      → slice t.buf (t.vtab + (4 + idx * 2)) (t.vtab + (4 + idx * 2) + 2)
        ≡ returns (to_le_bytes 2 entry)
      → field_pos t idx ≡ returns (entry_pos t.obj entry)
  unfolding field_pos slot_pos
  field_pos-entry entry he within h =
      let e = from_le_bytes-to_le_bytes 2 vt_size (omega arith) in
      let e' = from_le_bytes-to_le_bytes 2 entry (omega arith) in
      let f : (t.vtab + 2) % 2 ^ 64 ≡ t.vtab + 2 = omega arith in ground (arith, size, e, e', f, h)

-- A byte and a word at a position within the buffer.
pub u8_at-pos :
    (t : FbTable) (idx p v : ℕ)
    → field_pos t idx ≡ returns (some p)
    → slice t.buf p (p + 1) ≡ returns (v ∷ [])
    → u8_at t idx ≡ returns v
unfolding u8_at u8_from
u8_at-pos t idx p v pos h =
    let (_, inside) = slice-le t.buf _ p (p + 1) h in
    let e = index-slice t.buf p v h in ground (arith, pos, e)

pub u32_at-pos :
    (t : FbTable) (idx p v : ℕ)
    → v < 2 ^ 32
    → field_pos t idx ≡ returns (some p)
    → slice t.buf p (p + 4) ≡ returns (to_le_bytes 4 v)
    → (u32_at t idx ≡ returns v) × (f32_at t idx ≡ returns v)
unfolding u32_at f32_at u32_from
u32_at-pos t idx p v hv pos h =
    let (_, inside) = slice-le t.buf _ p (p + 4) h in
    let e = from_le_bytes-to_le_bytes 4 v (omega arith) in ground (arith, pos, h, e)

-- A field with no position is zero.
pub at-none :
    (t : FbTable) (idx : ℕ)
    → field_pos t idx ≡ returns none
    → (u8_at t idx ≡ returns 0) × (u32_at t idx ≡ returns 0) × (f32_at t idx ≡ returns 0)
unfolding u8_at u32_at f32_at u8_from u32_from
at-none t idx h = ground (arith, h)
