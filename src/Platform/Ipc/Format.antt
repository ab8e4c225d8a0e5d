-- ===== src/Platform/Ipc/Format.antt =====
-- The FlatBuffers format that core/platform/src/ipc.rs relies on: how a finished buffer holds the
-- scalars of one table, as the format's documentation describes it.
pub mod Slots
use lowband.Prelude.{ℕ, ◌+◌, ◌-◌, ◌*◌, ◌%◌, ◌^◌, ◌≤◌, ◌<◌, ◌≡◌, ◌≢◌, ◌⊎◌, List, [], ◌∷◌, length}
use lowband.Messaging.Bytes.{to_le_bytes}
use lowband.Platform.Ipc.Table.{slice, returns}
use lowband.Platform.Ipc.Codec.{Scalar, u8, u32, f32, Slot}

-- The little-endian bytes of a scalar, and the number that they are read as.
unfoldable pub scalar_bytes : Scalar → List ℕ
scalar_bytes (u8 v) = to_le_bytes 1 v
scalar_bytes (u32 v) = to_le_bytes 4 v
scalar_bytes (f32 v) = to_le_bytes 4 v

-- The default of a slot: zero, which an f32 equals with either sign.
abbrev pub IsDefault : Scalar → Type 0
IsDefault (u8 v) = v ≡ 0
IsDefault (u32 v) = v ≡ 0
IsDefault (f32 v) = (v ≡ 0) ⊎ (v ≡ 2 ^ 31)

-- The bytes `bs` stand in `buf` from `p` on.
abbrev pub StandsAt : List ℕ → ℕ → List ℕ → Type 0
StandsAt buf p bs = slice buf p (p + length bs) ≡ returns bs

-- A slot is left out: its vtable is too short for it, or has a zero entry.
pub data LeftOut (buf : List ℕ) (vtab vt_size : ℕ) (s : Slot) : Type 0 where
  beyond : vt_size < s.offset + 2 → LeftOut buf vtab vt_size s
  zero_entry : StandsAt buf (vtab + s.offset) (to_le_bytes 2 0) → LeftOut buf vtab vt_size s

-- A slot is stored, or left out where its value is the default.
pub data Stored (buf : List ℕ) (obj vtab vt_size : ℕ) (s : Slot) : Type 0 where
  default : IsDefault s.value → LeftOut buf vtab vt_size s → Stored buf obj vtab vt_size s
  stored :
      (entry : ℕ)
      → entry ≢ 0
      → entry < 2 ^ 16
      → s.offset + 2 ≤ vt_size
      → StandsAt buf (vtab + s.offset) (to_le_bytes 2 entry)
      → StandsAt buf (obj + entry) (scalar_bytes s.value)
      → Stored buf obj vtab vt_size s

abbrev pub AllStored : List ℕ → ℕ → ℕ → ℕ → List Slot → Type 0
AllStored buf obj vtab vt_size [] = Unit {0}
AllStored buf obj vtab vt_size (s ∷ slots) =
    Stored buf obj vtab vt_size s × AllStored buf obj vtab vt_size slots

-- A buffer of less than 2 GB begins with the offset of its table. The table begins with the signed
-- offset back to its vtable, and the vtable with its size.
pub record IsFlatBuffer (buf : List ℕ) (slots : List Slot) : Type 0 where
  pub obj : ℕ
  pub vtab : ℕ
  pub vt_size : ℕ
  pub small : length buf < 2 ^ 31
  pub obj_after : 4 ≤ obj
  pub root : StandsAt buf 0 (to_le_bytes 4 obj)
  pub soffset : StandsAt buf obj (to_le_bytes 4 ((obj + 2 ^ 32 - vtab) % 2 ^ 32))
  pub vt_header : 4 ≤ vt_size
  pub vt_u16 : vt_size < 2 ^ 16
  pub vt_within : vtab + vt_size ≤ length buf
  pub size : StandsAt buf vtab (to_le_bytes 2 vt_size)
  pub fields : AllStored buf obj vtab vt_size slots
