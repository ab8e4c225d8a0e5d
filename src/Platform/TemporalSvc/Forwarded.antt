-- ===== src/Platform/TemporalSvc/Forwarded.antt =====
-- core/platform/src/temporal_svc.rs: the share of frames that is forwarded.
use lowband.Prelude.{
  ℕ, zero, suc, ◌+◌, ◌%◌, ◌^◌, ◌<◌, ◌≡◌, refl, ap, ◌∙◌, arith, inl, inr, leb, if◌then◌else◌,
}
use lowband.Platform.TemporalSvc.{
  TemporalSvcMode, l1t2, l1t3, TemporalSvcController, t1, t2, no_drop, next_layer, next_frame,
  layer_for, active_frame_quarters,
}
use lowband.Platform.TemporalSvc.Reached.{IsFloor, IsValid}

-- How many of the next `n` frames are not withheld.
abbrev pub forwarded : ℕ → TemporalSvcController → ℕ
forwarded zero c = 0
forwarded (suc n) c =
    let (next, layer, drop) = next_frame c in (if drop then 0 else 1) + forwarded n next

unfoldable kept_at : TemporalSvcMode → ℕ → ℕ → ℕ
kept_at mode floor r = if leb floor (layer_for mode r) then 0 else 1

unfoldable four_from : TemporalSvcMode → ℕ → ℕ → ℕ
four_from mode floor r =
    kept_at mode floor r
    + (kept_at mode floor ((r + 1) % 4)
        + (kept_at mode floor ((r + 2) % 4) + (kept_at mode floor ((r + 3) % 4) + 0)))

four_values :
    (f : ℕ → ℕ) (v r : ℕ) → (f 0 ≡ v) × (f 1 ≡ v) × (f 2 ≡ v) × (f 3 ≡ v) → r < 4 → f r ≡ v
four_values f v zero (a, b, c, d) h = a
four_values f v (suc zero) (a, b, c, d) h = b
four_values f v (suc (suc zero)) (a, b, c, d) h = c
four_values f v (suc (suc (suc zero))) (a, b, c, d) h = d
four_values f v (suc (suc (suc (suc r)))) p h = absurd (omega (arith, h))

four_from-quarters :
    (mode : TemporalSvcMode) (floor r : ℕ)
    → IsFloor mode floor
    → r < 4
    → four_from mode floor r ≡ active_frame_quarters mode floor
unfolding four_from kept_at layer_for active_frame_quarters
four_from-quarters l1t2 floor r (inl h) below =
    rw h (four_values (four_from l1t2 no_drop) 4 r (refl, refl, refl, refl) below)
four_from-quarters l1t2 floor r (inr h) below =
    rw h (four_values (four_from l1t2 t1) 2 r (refl, refl, refl, refl) below)
four_from-quarters l1t3 floor r (inl h) below =
    rw h (four_values (four_from l1t3 no_drop) 4 r (refl, refl, refl, refl) below)
four_from-quarters l1t3 floor r (inr (inl h)) below =
    rw h (four_values (four_from l1t3 t2) 2 r (refl, refl, refl, refl) below)
four_from-quarters l1t3 floor r (inr (inr h)) below =
    rw h (four_values (four_from l1t3 t1) 1 r (refl, refl, refl, refl) below)

-- The pattern has a period of four frames, also where the counter wraps.
layer_for_period :
    (mode : TemporalSvcMode) (n r : ℕ) → n % 4 ≡ r → layer_for mode n ≡ layer_for mode r
unfolding layer_for
layer_for_period l1t2 n r h = let same : n % 2 ≡ r % 2 = omega (arith, h) in rw same refl
layer_for_period l1t3 n r h = let same : n % 4 ≡ r % 4 = omega (arith, h) in rw same refl

forwarded_step :
    (n : ℕ) (c : TemporalSvcController) (r : ℕ)
    → c.assigner.frame_count % 4 ≡ r
    → forwarded (suc n) c ≡ kept_at c.assigner.mode c.drop_floor r + forwarded n (next_frame c).0
unfolding next_frame next_layer kept_at
forwarded_step n c r h = rw (layer_for_period c.assigner.mode c.assigner.frame_count r h) refl

next_frame_kept :
    (c : TemporalSvcController)
    → ((next_frame c).0.assigner.mode ≡ c.assigner.mode)
      × ((next_frame c).0.drop_floor ≡ c.drop_floor)
      × ((next_frame c).0.assigner.frame_count ≡ (c.assigner.frame_count + 1) % 2 ^ 64)
unfolding next_frame next_layer
next_frame_kept c = (refl, refl, refl)

forwarded-kept_at :
    (n : ℕ) (c : TemporalSvcController) (mode : TemporalSvcMode) (floor r : ℕ)
    → c.assigner.mode ≡ mode
    → c.drop_floor ≡ floor
    → c.assigner.frame_count % 4 ≡ r
    → forwarded (suc n) c ≡ kept_at mode floor r + forwarded n (next_frame c).0
forwarded-kept_at n c mode floor r m f h =
    forwarded_step n c r h ∙ ap (λ k. k + forwarded n (next_frame c).0) (rw (m, f) refl)

-- Between two ticks, of any four frames in a row as many are forwarded as the active fraction says,
-- wherever in the pattern they start and also where the frame counter wraps.
pub forwarded-active_frame_quarters :
    (c : TemporalSvcController)
    → IsValid c
    → forwarded 4 c ≡ active_frame_quarters c.assigner.mode c.drop_floor
unfolding four_from
forwarded-active_frame_quarters c h =
    let mode = c.assigner.mode in
    let floor = c.drop_floor in
    let r = c.assigner.frame_count % 4 in
    let (m1, f1, n1) = next_frame_kept c in
    let c1 = (next_frame c).0 in
    let (m2, f2, n2) = next_frame_kept c1 in
    let c2 = (next_frame c1).0 in
    let (m3, f3, n3) = next_frame_kept c2 in
    let s0 = forwarded-kept_at 3 c mode floor r refl refl refl in
    let s1 = forwarded-kept_at 2 c1 mode floor ((r + 1) % 4) m1 f1 (omega (arith, n1)) in
    let s2 =
      forwarded-kept_at 1 c2 mode floor ((r + 2) % 4) (m2 ∙ m1) (f2 ∙ f1) (omega (arith, n1, n2)) in
    let s3 =
      forwarded-kept_at 0 (next_frame c2).0 mode floor ((r + 3) % 4) (m3 ∙ m2 ∙ m1) (f3 ∙ f2 ∙ f1)
        (omega (arith, n1, n2, n3)) in
    s0
    ∙ ap (λ k. kept_at mode floor r + k)
        (s1
          ∙ ap (λ k. kept_at mode floor ((r + 1) % 4) + k)
              (s2 ∙ ap (λ k. kept_at mode floor ((r + 2) % 4) + k) s3))
    ∙ four_from-quarters mode floor r h.floor (omega arith)
