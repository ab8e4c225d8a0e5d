-- ===== src/Platform/Ipc/Table/Checked.antt =====
-- core/platform/src/ipc.rs: the reads of a table by whether the entry of the field lies in the buffer.
use lowband.Prelude.{
  ℕ, zero, suc, ◌+◌, ◌-◌, ◌*◌, ◌%◌, ◌^◌, ◌≤◌, ◌<◌, ◌≡◌, inl, inr, refl, arith, Option, some, none,
  List, [], ◌∷◌, length, get_elem?, take, drop, ltb, leb, Bool-cases, ltb→lt, leb→le, ◌⊎◌,
}
use lowband.Messaging.Bytes.{from_le_bytes}
use lowband.Platform.Ipc.Table.{
  Outcome, slice, index, returns, panics, FbTable, entry_pos, slot_pos, field_pos, u8_from, u8_at,
  u32_from, u32_at, f32_at,
}

-- A computation that comes to a value.
abbrev pub Returns : {X : Type 0} → Outcome X → Type 0
Returns {X} o = (x : X) × (o ≡ returns x)

slice-Returns : (buf : List ℕ) (a b : ℕ) → a ≤ b → b ≤ length buf → Returns (slice buf a b)
unfolding slice
slice-Returns buf a b h h' = (take (b - a) (drop a buf), ground arith)

get_elem?-some : (buf : List ℕ) (p : ℕ) → p < length buf → (v : ℕ) × (get_elem? buf p ≡ some v)
get_elem?-some [] p h = elim h [ ]
get_elem?-some (x ∷ buf) zero h = (x, refl)
get_elem?-some (x ∷ buf) (suc p) h = get_elem?-some buf p (omega arith)

index-Returns : (buf : List ℕ) (p : ℕ) → p < length buf → Returns (index buf p)
unfolding index
index-Returns buf p h = let (v, e) = get_elem?-some buf p h in (v, rw e refl)

u8_from-Returns : (buf : List ℕ) (pos : Option ℕ) → Returns (u8_from buf pos)
unfolding u8_from
u8_from-Returns buf none = (0, refl)
u8_from-Returns buf (some p) = elim (Bool-cases (ltb p (length buf))) [
  | inl fits ↦ let (v, e) = index-Returns buf p (ltb→lt _ _ fits) in (v, rw fits e)
  | inr past ↦ (0, rw past refl)
]

u32_from-Returns : (buf : List ℕ) (pos : Option ℕ) → Returns (u32_from buf pos)
unfolding u32_from
u32_from-Returns buf none = (0, refl)
u32_from-Returns buf (some p) = elim (Bool-cases (leb (p + 4) (length buf))) [
  | inl fits ↦
      let (word, e) = slice-Returns buf p (p + 4) (omega arith) (leb→le _ _ fits) in
      (from_le_bytes word, rw (fits, e) refl)
  | inr past ↦ (0, rw past refl)
]

-- The bytes that the reader takes the size of a table's vtable from.
abbrev pub IsVtableSize : FbTable → List ℕ → Type 0
IsVtableSize t size = slice t.buf t.vtab ((t.vtab + 2) % 2 ^ 64) ≡ returns size

-- The vtable claims an entry for the field, and the entry passes the end of the buffer.
abbrev pub Overruns : FbTable → List ℕ → ℕ → Type 0
Overruns t size idx =
    (4 + idx * 2 + 2 ≤ from_le_bytes size) × (length t.buf < t.vtab + (4 + idx * 2) + 2)

-- The vtable claims no entry for the field, or has it in the buffer.
abbrev pub IsClear : FbTable → List ℕ → ℕ → Type 0
IsClear t size idx =
    (from_le_bytes size < 4 + idx * 2 + 2) ⊎ (t.vtab + (4 + idx * 2) + 2 ≤ length t.buf)

pub Overruns-or_IsClear :
    (t : FbTable) (size : List ℕ) (idx : ℕ) → Overruns t size idx ⊎ IsClear t size idx
Overruns-or_IsClear t size idx = elim (Bool-cases (ltb (from_le_bytes size) (4 + idx * 2 + 2))) [
  | inl short ↦ inr (inl (ltb→lt _ _ short))
  | inr fits ↦ elim (Bool-cases (ltb (length t.buf) (t.vtab + (4 + idx * 2) + 2))) [
    | inl past ↦ inl (ground (arith, fits), ltb→lt _ _ past)
    | inr inside ↦ inr (inr (ground (arith, inside)))
  ]
]

lt_suc_cases : (m n : ℕ) → m < suc n → (m < n) ⊎ (m ≡ n)
lt_suc_cases m n h = elim (Bool-cases (ltb m n)) [
  | inl low ↦ inl (ltb→lt _ _ low)
  | inr high ↦ inr (ground (arith, high))
]

-- Of the first `n` fields one overruns, or all are clear.
pub Overruns-some_or_none :
    (t : FbTable) (size : List ℕ) (n : ℕ)
    → ((idx : ℕ) × (idx < n) × Overruns t size idx) ⊎ ((idx : ℕ) → idx < n → IsClear t size idx)
Overruns-some_or_none t size zero = inr (λ idx h. absurd (omega arith))
Overruns-some_or_none t size (suc n) = elim (Overruns-some_or_none t size n) [
  | inl (idx, h, over) ↦ inl (idx, omega arith, over)
  | inr below ↦ elim (Overruns-or_IsClear t size n) [
    | inl over ↦ inl (n, omega arith, over)
    | inr clear ↦ inr (λ idx h. elim (lt_suc_cases idx n h) [
      | inl low ↦ below idx low
      | inr last ↦ rw last clear
    ])
  ]
]

module _ (t : FbTable) (size : List ℕ) (read : IsVtableSize t size) (idx : ℕ) where
  pub field_pos_panics : Overruns t size idx → field_pos t idx ≡ panics
  unfolding field_pos slot_pos slice
  field_pos_panics (within, beyond_end) = ground (arith, read)

  module _ (clear : IsClear t size idx) where
    field_pos-Returns : Returns (field_pos t idx)
    unfolding field_pos slot_pos
    field_pos-Returns = elim (Bool-cases (ltb (from_le_bytes size) (4 + idx * 2 + 2))) [
      | inl short ↦ (none, rw (read, short) refl)
      | inr fits ↦
          let slot = 4 + idx * 2 in
          let low : slot + 2 ≤ from_le_bytes size = ground (arith, fits) in
          let high : t.vtab + slot + 2 ≤ length t.buf = omega (arith, low, clear) in
          let (entry, e) =
            slice-Returns t.buf (t.vtab + slot) (t.vtab + slot + 2) (omega arith) high in
          (entry_pos t.obj (from_le_bytes entry), rw (read, fits, e) refl)
    ]

    -- A read of a clear field comes to a value.
    pub u8_at-Returns : Returns (u8_at t idx)
    unfolding u8_at
    u8_at-Returns =
        let (pos, e) = field_pos-Returns in let (v, e') = u8_from-Returns t.buf pos in (v, rw e e')

    pub u32_at-Returns : Returns (u32_at t idx)
    unfolding u32_at
    u32_at-Returns =
        let (pos, e) = field_pos-Returns in let (v, e') = u32_from-Returns t.buf pos in (v, rw e e')

    pub f32_at-Returns : Returns (f32_at t idx)
    unfolding f32_at
    f32_at-Returns =
        let (pos, e) = field_pos-Returns in let (v, e') = u32_from-Returns t.buf pos in (v, rw e e')

-- A read of a field whose position panics.
pub at_panics :
    (t : FbTable) (idx : ℕ)
    → field_pos t idx ≡ panics
    → (u8_at t idx ≡ panics) × (u32_at t idx ≡ panics) × (f32_at t idx ≡ panics)
unfolding u8_at u32_at f32_at
at_panics t idx h = ground (arith, h)
