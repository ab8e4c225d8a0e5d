-- ===== src/Platform/Ipc/Codec/Malformed.antt =====
-- core/platform/src/ipc.rs: which frames make `decode_frame` panic.
use lowband.Prelude.{
  ℕ, ◌+◌, ◌≤◌, ◌<◌, ◌≡◌, ◌⊎◌, refl, arith, Option, some, none, List, ◌∷◌, length, true, false, ◌==◌,
  not, if◌then◌else◌, Bool, inl, inr, ◌↔◌,
}
use lowband.Messaging.Bytes.{from_le_bytes}
use lowband.Platform.Ipc.{IpcEvent}
use lowband.Platform.Ipc.Table.{
  Outcome, returns, panics, ◌>>=◌, bool_at, FbTable, from_bytes, u8_at, u32_at, f32_at,
}
use lowband.Platform.Ipc.Table.Checked.{
  Returns, IsVtableSize, Overruns, IsClear, Overruns-or_IsClear, Overruns-some_or_none,
  u8_at-Returns, u32_at-Returns, f32_at-Returns,
}
use lowband.Platform.Ipc.Codec.Overrun.{fields_of, decode_kind_panics}
use lowband.Platform.Ipc.Codec.{
  read_tier, read_budget, read_gear, read_elev_req, read_elev_resp, read_panic, decode_kind,
  decode_fb, decode_frame,
}

Returns-bind :
    {X Y : Type 0} (m : Outcome X) (f : X → Outcome Y)
    → Returns m
    → ((x : X) → Returns (f x))
    → Returns (m >>= f)
Returns-bind panics f (x, e) h = cc
Returns-bind (returns y) f (x, e) h = h y

if_Returns :
    (b : Bool) (m n : Outcome (Option IpcEvent))
    → (b ≡ true → Returns m)
    → (b ≡ false → Returns n)
    → Returns (if b then m else n)
if_Returns true m n h h' = h refl
if_Returns false m n h h' = h' refl

inside-IsClear :
    (t : FbTable) (size : List ℕ) (idx : ℕ)
    → t.vtab + from_le_bytes size ≤ length t.buf
    → IsClear t size idx
inside-IsClear t size idx inside = elim (Overruns-or_IsClear t size idx) [
  | inl (there, past) ↦ absurd (omega arith)
  | inr clear ↦ clear
]

-- A buffer with no table, or with a vtable that does not pass its end.
abbrev pub VtableInside : List ℕ → Type 0
VtableInside fb =
    (from_bytes fb ≡ returns none)
    ⊎ ((t : FbTable) × (size : List ℕ) × (from_bytes fb ≡ returns (some t))
        × IsVtableSize t size
        × (t.vtab + from_le_bytes size ≤ length t.buf))

module _ (t : FbTable) (size : List ℕ) (read : IsVtableSize t size) where
  module _ (n : ℕ) (clear : (idx : ℕ) → idx < n → IsClear t size idx) where
    u8_then :
        (idx : ℕ) (f : ℕ → Outcome (Option IpcEvent))
        → idx < n
        → ((v : ℕ) → Returns (f v))
        → Returns (u8_at t idx >>= f)
    u8_then idx f h = Returns-bind (u8_at t idx) f (u8_at-Returns t size read idx (clear idx h))

    u32_then :
        (idx : ℕ) (f : ℕ → Outcome (Option IpcEvent))
        → idx < n
        → ((v : ℕ) → Returns (f v))
        → Returns (u32_at t idx >>= f)
    u32_then idx f h = Returns-bind (u32_at t idx) f (u32_at-Returns t size read idx (clear idx h))

    f32_then :
        (idx : ℕ) (f : ℕ → Outcome (Option IpcEvent))
        → idx < n
        → ((v : ℕ) → Returns (f v))
        → Returns (f32_at t idx >>= f)
    f32_then idx f h = Returns-bind (f32_at t idx) f (f32_at-Returns t size read idx (clear idx h))

    bool_then :
        (idx : ℕ) (f : Bool → Outcome (Option IpcEvent))
        → idx < n
        → ((v : Bool) → Returns (f v))
        → Returns (bool_at t idx >>= f)
    bool_then idx f h =
        Returns-bind (bool_at t idx) f
          (let (v, e) = u8_at-Returns t size read idx (clear idx h) in (not (v == 0), rw e refl))

    read_tier-Returns : 3 ≤ n → Returns (read_tier t)
    unfolding read_tier
    read_tier-Returns h = u8_then 0 _ (omega arith) (λ tier.
        f32_then 1 _ (omega arith) (λ cpu. u8_then 2 _ (omega arith) (λ thermal. (_, refl))))

    read_budget-Returns : 8 ≤ n → Returns (read_budget t)
    unfolding read_budget
    read_budget-Returns h = u32_then 2 _ (omega arith) (λ screen.
        u32_then 0 _ (omega arith) (λ audio. u32_then 1 _ (omega arith) (λ input.
          u32_then 3 _ (omega arith) (λ camera. u32_then 4 _ (omega arith) (λ refinement.
            u32_then 5 _ (omega arith) (λ xfer.
              u32_then 6 _ (omega arith)
                (λ rtt_ms. f32_then 7 _ (omega arith) (λ loss. (_, refl)))))))))

    read_gear-Returns : 5 ≤ n → Returns (read_gear t)
    unfolding read_gear
    read_gear-Returns h = u8_then 0 _ (omega arith) (λ kind. u8_then 1 _ (omega arith) (λ preset.
        bool_then 2 _ (omega arith) (λ refinement.
          u8_then 3 _ (omega arith) (λ thermal. u8_then 4 _ (omega arith) (λ av1. (_, refl))))))

    read_elev_req-Returns : 1 ≤ n → Returns (read_elev_req t)
    unfolding read_elev_req
    read_elev_req-Returns h = u8_then 0 _ (omega arith) (λ reason. (_, refl))

    read_elev_resp-Returns : 2 ≤ n → Returns (read_elev_resp t)
    unfolding read_elev_resp
    read_elev_resp-Returns h =
        u8_then 0 _ (omega arith) (λ reason. u8_then 1 _ (omega arith) (λ outcome. (_, refl)))

    read_panic-Returns : 1 ≤ n → Returns (read_panic t)
    unfolding read_panic
    read_panic-Returns h = u32_then 0 _ (omega arith) (λ seq. (_, refl))

    decode_kind-Returns : (kind : ℕ) → fields_of kind ≤ n → Returns (decode_kind kind t)
    unfolding decode_kind
    decode_kind-Returns kind h =
        if_Returns (kind == 0) _ _ (λ e. read_tier-Returns (ground (arith, e)))
          (λ n0.
            if_Returns (kind == 1) _ _ (λ e. read_budget-Returns (ground (arith, e)))
              (λ n1.
                if_Returns (kind == 2) _ _ (λ e. read_gear-Returns (ground (arith, e)))
                  (λ n2.
                    if_Returns (kind == 3) _ _ (λ e. read_elev_req-Returns (ground (arith, e)))
                      (λ n3.
                        if_Returns (kind == 4) _ _ (λ e. read_elev_resp-Returns (ground (arith, e)))
                          (λ n4.
                            if_Returns (kind == 5) _ _ (λ e. read_panic-Returns (ground (arith, e)))
                              (λ n5. (none, refl)))))))

-- Where a table and the size of its vtable are found, the reader panics on the frame exactly if, among the
-- first fields that the kind of the frame reads (three for a tier, eight for a budget, five for gears, one for a
-- request or a panic, two for a response, none for an unknown kind), the vtable's size covers the
-- entry of one and the entry passes the end of the buffer.
pub decode_frame_panics_iff :
    (kind : ℕ) (fb : List ℕ) (t : FbTable) (size : List ℕ)
    → from_bytes fb ≡ returns (some t)
    → IsVtableSize t size
    → decode_frame (kind ∷ fb) ≡ panics ↔ ((idx : ℕ) × (idx < fields_of kind) × Overruns t size idx)
unfolding decode_frame decode_fb
decode_frame_panics_iff kind fb t size opened read = (
  λ stuck. elim (Overruns-some_or_none t size (fields_of kind)) [
    | inl found ↦ found
    | inr clear ↦
        let (result, e) =
          decode_kind-Returns t size read (fields_of kind) clear kind (omega arith) in
        let stuck' : decode_kind kind t ≡ panics = rw opened at stuck in cc
  ],
  λ (idx, h, over). rw opened (decode_kind_panics t size read idx over kind h),
)

-- A frame whose table is found, with its whole vtable in the buffer, is decoded without a panic,
-- whatever its kind and its entries; so is one with no table.
pub decode_frame-Returns :
    (kind : ℕ) (fb : List ℕ)
    → VtableInside fb
    → (result : Option IpcEvent) × (decode_frame (kind ∷ fb) ≡ returns result)
unfolding decode_frame decode_fb
decode_frame-Returns kind fb (inl opened) = (none, rw opened refl)
decode_frame-Returns kind fb (inr (t, size, opened, read, inside)) =
    let (result, e) =
      decode_kind-Returns t size read (fields_of kind) (λ idx h. inside-IsClear t size idx inside)
        kind (omega arith) in
    (result, rw opened e)
