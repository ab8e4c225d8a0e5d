-- ===== src/Platform/Ipc/Codec/Overrun.antt =====
-- core/platform/src/ipc.rs: the readers of `decode_fb` on a table with a field that overruns the buffer.
use lowband.Prelude.{
  ℕ, ◌<◌, ◌≡◌, ◌≢◌, refl, arith, List, true, ◌==◌, if◌then◌else◌, Bool-cases, ==_iff, inl, inr,
}
use lowband.Platform.Ipc.Table.{
  Outcome, returns, panics, ◌>>=◌, bool_at, FbTable, u8_at, u32_at, f32_at,
}
use lowband.Platform.Ipc.Table.Checked.{IsVtableSize, Overruns, field_pos_panics, at_panics}
use lowband.Platform.Ipc.Codec.{
  read_tier, read_budget, read_gear, read_elev_req, read_elev_resp, read_panic, decode_kind,
}

-- How many fields the reader of a kind reads: the first ones of the table.
abbrev pub fields_of : ℕ → ℕ
fields_of kind =
    if kind == 0
    then 3
    else if kind == 1
    then 8
    else if kind == 2
    then 5
    else if kind == 3
    then 1
    else if kind == 4
    then 2
    else if kind == 5
    then 1
    else 0

module _ (t : FbTable) (size : List ℕ) (read : IsVtableSize t size) where
  module _ (idx : ℕ) (over : Overruns t size idx) where
    -- A read of field `i` with the rest of a reader, which panics if `i` is not the field.
    read_then :
        {X Y : Type 0} (i : ℕ) (read_at : ℕ → Outcome X) (f : X → Outcome Y)
        → read_at idx ≡ panics
        → (idx ≢ i → (x : X) → f x ≡ panics)
        → read_at i >>= f ≡ panics
    read_then i read_at f stuck rest = elim (Bool-cases (idx == i)) [
      | inl same ↦ rw (← ((==_iff idx i).0 same), stuck) refl
      | inr other ↦
          bind_panics (read_at i) f
            (rest (λ e. let same : (idx == i) ≡ true = (==_iff idx i).1 e in cc))
    ]
      where
        bind_panics :
            {X Y : Type 0} (m : Outcome X) (f : X → Outcome Y)
            → ((x : X) → f x ≡ panics)
            → m >>= f ≡ panics
        bind_panics panics f h = refl
        bind_panics (returns x) f h = h x

    u8_stuck : u8_at t idx ≡ panics
    u8_stuck = (at_panics t idx (field_pos_panics t size read idx over)).0

    u32_stuck : u32_at t idx ≡ panics
    u32_stuck = (at_panics t idx (field_pos_panics t size read idx over)).1

    f32_stuck : f32_at t idx ≡ panics
    f32_stuck = (at_panics t idx (field_pos_panics t size read idx over)).2

    read_tier_panics : idx < 3 → read_tier t ≡ panics
    unfolding read_tier
    read_tier_panics h = read_then 0 (u8_at t) _ u8_stuck (λ n0 tier.
        read_then 1 (f32_at t) _ f32_stuck (λ n1 cpu.
          read_then 2 (u8_at t) _ u8_stuck (λ n2 thermal. absurd (omega (arith, n0, n1, n2)))))

    read_budget_panics : idx < 8 → read_budget t ≡ panics
    unfolding read_budget
    read_budget_panics h = read_then 2 (u32_at t) _ u32_stuck (λ n2 screen.
        read_then 0 (u32_at t) _ u32_stuck (λ n0 audio.
          read_then 1 (u32_at t) _ u32_stuck (λ n1 input.
            read_then 3 (u32_at t) _ u32_stuck (λ n3 camera.
              read_then 4 (u32_at t) _ u32_stuck (λ n4 refinement.
                read_then 5 (u32_at t) _ u32_stuck (λ n5 xfer.
                  read_then 6 (u32_at t) _ u32_stuck (λ n6 rtt_ms.
                    read_then 7 (f32_at t) _ f32_stuck
                      (λ n7 loss_pct. absurd (omega (arith, n0, n1, n2, n3, n4, n5, n6, n7))))))))))

    read_gear_panics : idx < 5 → read_gear t ≡ panics
    unfolding read_gear
    read_gear_panics h = read_then 0 (u8_at t) _ u8_stuck (λ n0 kind.
        read_then 1 (u8_at t) _ u8_stuck (λ n1 preset.
          read_then 2 (bool_at t) _ (rw u8_stuck refl) (λ n2 refinement.
            read_then 3 (u8_at t) _ u8_stuck (λ n3 thermal.
              read_then 4 (u8_at t) _ u8_stuck
                (λ n4 av1. absurd (omega (arith, n0, n1, n2, n3, n4)))))))

    read_elev_req_panics : idx < 1 → read_elev_req t ≡ panics
    unfolding read_elev_req
    read_elev_req_panics h =
        read_then 0 (u8_at t) _ u8_stuck (λ n0 reason. absurd (omega (arith, n0)))

    read_elev_resp_panics : idx < 2 → read_elev_resp t ≡ panics
    unfolding read_elev_resp
    read_elev_resp_panics h = read_then 0 (u8_at t) _ u8_stuck (λ n0 reason.
        read_then 1 (u8_at t) _ u8_stuck (λ n1 outcome. absurd (omega (arith, n0, n1))))

    read_panic_panics : idx < 1 → read_panic t ≡ panics
    unfolding read_panic
    read_panic_panics h = read_then 0 (u32_at t) _ u32_stuck (λ n0 seq. absurd (omega (arith, n0)))

    pub decode_kind_panics : (kind : ℕ) → idx < fields_of kind → decode_kind kind t ≡ panics
    unfolding decode_kind
    decode_kind_panics kind h = ground (
      arith, read_tier_panics, read_budget_panics, read_gear_panics, read_elev_req_panics,
      read_elev_resp_panics, read_panic_panics,
    )
