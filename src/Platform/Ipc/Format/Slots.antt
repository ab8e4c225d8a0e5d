-- ===== src/Platform/Ipc/Format/Slots.antt =====
-- core/platform/src/ipc.rs: a slot that is stored in the documented format is read back.
use native.Mathlib.Decide.{dec_lt}
use lowband.Prelude.{
  ℕ, ◌+◌, ◌*◌, ◌%◌, ◌^◌, ◌≤◌, ◌<◌, ◌≡◌, ◌≢◌, refl, arith, inl, inr, none, some, List, [], ◌∷◌,
}
use lowband.Messaging.Bytes.{to_le_bytes, length-to_le_bytes}
use lowband.Platform.Ipc.Table.{
  slice, returns, FbTable, field_pos, entry_pos, from_bytes, u8_at, u32_at, f32_at,
}
use lowband.Platform.Ipc.Table.Reading.{
  from_bytes-root, field_pos-beyond, field_pos-entry, u8_at-pos, u32_at-pos, at-none,
}
use lowband.Platform.Ipc.Codec.{Scalar, u8, u32, f32, Slot, voff}
use lowband.Platform.Ipc.Format.{
  StandsAt, LeftOut, beyond, zero_entry, Stored, default, stored, IsFlatBuffer, scalar_bytes,
}

StandsAt-slice :
    (buf : List ℕ) (p k n : ℕ)
    → StandsAt buf p (to_le_bytes k n)
    → slice buf p (p + k) ≡ returns (to_le_bytes k n)
StandsAt-slice buf p k n h = rw (length-to_le_bytes k n) at h

one_byte : (v : ℕ) → v < 256 → to_le_bytes 1 v ≡ v ∷ []
unfolding to_le_bytes
one_byte v h = let e : v % 256 ≡ v = omega arith in rw e refl

-- The table of a buffer in the format.
abbrev pub table_of : (buf : List ℕ) {slots : List Slot} → IsFlatBuffer buf slots → FbTable
table_of buf h = record { buf = buf; obj = h.obj; vtab = h.vtab }

pub from_bytes-IsFlatBuffer :
    (buf : List ℕ) {slots : List Slot} (h : IsFlatBuffer buf slots)
    → from_bytes buf ≡ returns (some (table_of buf h))
from_bytes-IsFlatBuffer buf h =
    from_bytes-root buf h.obj h.vtab h.small h.obj_after (omega (arith, h.vt_header, h.vt_within))
      (StandsAt-slice buf 0 4 h.obj h.root) (StandsAt-slice buf h.obj 4 _ h.soffset)

-- The size of its vtable, where it is read.
table_size :
    (buf : List ℕ) {slots : List Slot} (h : IsFlatBuffer buf slots)
    → (slice buf h.vtab (h.vtab + 2) ≡ returns (to_le_bytes 2 h.vt_size))
      × (h.vt_size < 2 ^ 16)
      × (h.vtab < 2 ^ 31)
table_size buf h =
    (StandsAt-slice buf h.vtab 2 h.vt_size h.size, h.vt_u16, omega (arith, h.vt_within, h.small))

module _ (t : FbTable) (vt_size : ℕ)
    (size : slice t.buf t.vtab (t.vtab + 2) ≡ returns (to_le_bytes 2 vt_size))
    (u16 : vt_size < 2 ^ 16) (small : t.vtab < 2 ^ 31) where
  -- The entry of a slot, read from its place in the vtable.
  field_pos-StandsAt :
      (idx entry : ℕ)
      → entry < 2 ^ 16
      → voff idx + 2 ≤ vt_size
      → StandsAt t.buf (t.vtab + voff idx) (to_le_bytes 2 entry)
      → field_pos t idx ≡ returns (entry_pos t.obj entry)
  field_pos-StandsAt idx entry he within h =
      let e : voff idx ≡ 4 + idx * 2 = omega arith in
      let at_entry = StandsAt-slice t.buf (t.vtab + voff idx) 2 entry h in
      field_pos-entry t idx vt_size size u16 small entry he (omega arith) (rw e at at_entry)

  LeftOut-none :
      (idx : ℕ) (v : Scalar)
      → LeftOut t.buf t.vtab vt_size (record { offset = voff idx; value = v })
      → field_pos t idx ≡ returns none
  LeftOut-none idx v (beyond h) = field_pos-beyond t idx vt_size size u16 small (omega (arith, h))
  LeftOut-none idx v (zero_entry h) = elim (dec_lt vt_size (voff idx + 2)) [
    | yes short ↦ field_pos-beyond t idx vt_size size u16 small (omega (arith, short))
    | no fits ↦ field_pos-StandsAt idx 0 (omega arith) (omega (arith, fits)) h
  ]

  stored-some :
      (idx entry : ℕ)
      → entry ≢ 0
      → entry < 2 ^ 16
      → voff idx + 2 ≤ vt_size
      → StandsAt t.buf (t.vtab + voff idx) (to_le_bytes 2 entry)
      → field_pos t idx ≡ returns (some (t.obj + entry))
  stored-some idx entry some_entry he within h =
      let e = field_pos-StandsAt idx entry he within h in ground (arith, e, some_entry)

  -- A byte is read back.
  u8_at-Stored :
      (idx v : ℕ)
      → v < 256
      → Stored t.buf t.obj t.vtab vt_size (record { offset = voff idx; value = u8 v })
      → u8_at t idx ≡ returns v
  unfolding scalar_bytes
  u8_at-Stored idx v hv (default zero_value left) =
      let (e, _, _) = at-none t idx (LeftOut-none idx (u8 v) left) in rw zero_value e
  u8_at-Stored idx v hv (stored entry some_entry he within at_entry at_pos) =
      let pos = stored-some idx entry some_entry he within at_entry in
      let e = StandsAt-slice t.buf (t.obj + entry) 1 v at_pos in
      let f : to_le_bytes 1 v ≡ v ∷ [] = one_byte v hv in
      u8_at-pos t idx (t.obj + entry) v pos (rw f at e)

  -- A 32-bit number is read back.
  u32_at-Stored :
      (idx v : ℕ)
      → v < 2 ^ 32
      → Stored t.buf t.obj t.vtab vt_size (record { offset = voff idx; value = u32 v })
      → u32_at t idx ≡ returns v
  unfolding scalar_bytes
  u32_at-Stored idx v hv (default zero_value left) =
      let (_, e, _) = at-none t idx (LeftOut-none idx (u32 v) left) in rw zero_value e
  u32_at-Stored idx v hv (stored entry some_entry he within at_entry at_pos) =
      let pos = stored-some idx entry some_entry he within at_entry in
      let e = StandsAt-slice t.buf (t.obj + entry) 4 v at_pos in
      (u32_at-pos t idx (t.obj + entry) v hv pos e).0

  -- So are the bits of an f32, except those of -0.0.
  f32_at-Stored :
      (idx v : ℕ)
      → v < 2 ^ 32
      → v ≢ 2 ^ 31
      → Stored t.buf t.obj t.vtab vt_size (record { offset = voff idx; value = f32 v })
      → f32_at t idx ≡ returns v
  unfolding scalar_bytes
  f32_at-Stored idx v hv unsigned (default (inl zero_value) left) =
      let (_, _, e) = at-none t idx (LeftOut-none idx (f32 v) left) in rw zero_value e
  f32_at-Stored idx v hv unsigned (default (inr signed) left) = absurd (unsigned signed)
  f32_at-Stored idx v hv unsigned (stored entry some_entry he within at_entry at_pos) =
      let pos = stored-some idx entry some_entry he within at_entry in
      let e = StandsAt-slice t.buf (t.obj + entry) 4 v at_pos in
      (u32_at-pos t idx (t.obj + entry) v hv pos e).1

-- The same for the table of a buffer.
module _ (buf : List ℕ) {slots : List Slot} (h : IsFlatBuffer buf slots) where
  pub u8_field :
      (idx v : ℕ)
      → v < 256
      → Stored buf h.obj h.vtab h.vt_size (record { offset = voff idx; value = u8 v })
      → u8_at (table_of buf h) idx ≡ returns v
  u8_field idx v hv s =
      let (size, u16, low) = table_size buf h in
      u8_at-Stored (table_of buf h) h.vt_size size u16 low idx v hv s

  pub u32_field :
      (idx v : ℕ)
      → v < 2 ^ 32
      → Stored buf h.obj h.vtab h.vt_size (record { offset = voff idx; value = u32 v })
      → u32_at (table_of buf h) idx ≡ returns v
  u32_field idx v hv s =
      let (size, u16, low) = table_size buf h in
      u32_at-Stored (table_of buf h) h.vt_size size u16 low idx v hv s

  pub f32_field :
      (idx v : ℕ)
      → v < 2 ^ 32
      → v ≢ 2 ^ 31
      → Stored buf h.obj h.vtab h.vt_size (record { offset = voff idx; value = f32 v })
      → f32_at (table_of buf h) idx ≡ returns v
  f32_field idx v hv unsigned s =
      let (size, u16, low) = table_size buf h in
      f32_at-Stored (table_of buf h) h.vt_size size u16 low idx v hv unsigned s
