-- ===== src/Platform/Ipc/Table.antt =====
-- core/platform/src/ipc.rs: the reader of a FlatBuffers table, `FbTable`, on a 64-bit target in a
-- release build, where usize arithmetic wraps.
pub mod Reading
pub mod Checked
pub mod Tests
use lowband.Prelude.{
  ℕ, zero, suc, ◌+◌, ◌-◌, ◌*◌, ◌%◌, ◌^◌, Bool, Option, none, some, List, [], ◌∷◌, length, take,
  drop, get_elem?, ltb, leb, ◌==◌, not, ◌&&◌, if◌then◌else◌,
}
use lowband.Messaging.Bytes.{from_le_bytes}

-- What a call does: it panics, or returns a value.
pub data Outcome {κ} (X : Type κ) : Type κ where
  panics : Outcome X
  returns : X → Outcome X

infixl 5 ◌>>=◌
abbrev pub ◌>>=◌ {ℓ κ} : {X : Type ℓ} {Y : Type κ} → Outcome X → (X → Outcome Y) → Outcome Y
panics >>= next = panics
returns x >>= next = next x

-- `buf[a..b]`
unfoldable pub slice : List ℕ → ℕ → ℕ → Outcome (List ℕ)
slice buf a b =
    if leb a b && leb b (length buf) then returns (take (b - a) (drop a buf)) else panics

-- `buf[p]`
abbrev in_bounds : Option ℕ → Outcome ℕ
in_bounds none = panics
in_bounds (some byte) = returns byte

pub index : List ℕ → ℕ → Outcome ℕ
index buf p = in_bounds (get_elem? buf p)

pub record FbTable : Type 0 where
  pub buf : List ℕ
  pub obj : ℕ
  pub vtab : ℕ

-- `(obj as i64 - soffset as i64) as usize` for the i32 with the bits `soffset`.
pub vtab_of : ℕ → ℕ → ℕ
vtab_of obj soffset =
    if ltb soffset (2 ^ 31) then (obj + 2 ^ 64 - soffset) % 2 ^ 64 else obj + 2 ^ 32 - soffset

table_at : List ℕ → ℕ → ℕ → Option FbTable
table_at buf obj vtab =
    if ltb (length buf) ((vtab + 4) % 2 ^ 64)
    then none
    else some (record { buf = buf; obj = obj; vtab = vtab })

-- The table at a root offset.
open_root : List ℕ → ℕ → Outcome (Option FbTable)
open_root buf obj =
    if ltb (length buf) (obj + 4)
    then returns none
    else (slice buf obj (obj + 4) >>= λ (soffset : List ℕ).
        returns (table_at buf obj (vtab_of obj (from_le_bytes soffset))))

pub from_bytes : List ℕ → Outcome (Option FbTable)
from_bytes buf =
    if ltb (length buf) 8
    then returns none
    else (slice buf 0 4 >>= λ (root : List ℕ). open_root buf (from_le_bytes root))

-- The position of a field from the entry of its slot.
abbrev pub entry_pos : ℕ → ℕ → Option ℕ
entry_pos obj off = if off == 0 then none else some (obj + off)

slot_pos : FbTable → ℕ → ℕ → Outcome (Option ℕ)
slot_pos t slot vt_size =
    if ltb vt_size (slot + 2)
    then returns none
    else (slice t.buf (t.vtab + slot) (t.vtab + slot + 2) >>= λ (entry : List ℕ).
        returns (entry_pos t.obj (from_le_bytes entry)))

pub field_pos : FbTable → ℕ → Outcome (Option ℕ)
field_pos t idx = do
  size ← slice t.buf t.vtab ((t.vtab + 2) % 2 ^ 64)
  slot_pos t (4 + idx * 2) (from_le_bytes size)

u8_from : List ℕ → Option ℕ → Outcome ℕ
u8_from buf none = returns 0
u8_from buf (some p) = if ltb p (length buf) then index buf p else returns 0

pub u8_at : FbTable → ℕ → Outcome ℕ
u8_at t idx = do pos ← field_pos t idx; u8_from t.buf pos

u32_from : List ℕ → Option ℕ → Outcome ℕ
u32_from buf none = returns 0
u32_from buf (some p) =
    if leb (p + 4) (length buf)
    then (slice buf p (p + 4) >>= λ (bytes : List ℕ). returns (from_le_bytes bytes))
    else returns 0

pub u32_at : FbTable → ℕ → Outcome ℕ
u32_at t idx = do pos ← field_pos t idx; u32_from t.buf pos

-- The bits of the f32; those of 0.0 are 0.
pub f32_at : FbTable → ℕ → Outcome ℕ
f32_at t idx = do pos ← field_pos t idx; u32_from t.buf pos

abbrev pub bool_at : FbTable → ℕ → Outcome Bool
bool_at t idx = do byte ← u8_at t idx; returns (not (byte == 0))
