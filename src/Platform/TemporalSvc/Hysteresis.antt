-- ===== src/Platform/TemporalSvc/Hysteresis.antt =====
-- core/platform/src/temporal_svc.rs: how many ticks of one kind move the floor.
use lowband.Prelude.{
  ℕ, zero, suc, ◌+◌, ◌-◌, ◌<◌, ◌≡◌, refl, sym, ap, ◌∙◌, arith, inl, inr, Bool, true, false, leb,
}
use lowband.Platform.TemporalSvc.{
  TemporalSvcMode, l1t2, l1t3, TemporalLayerAssigner, TemporalSvcController, overuse_escalate_ticks,
  underuse_relax_ticks, t1, no_drop, escalate, relax, update,
}
use lowband.Platform.TemporalSvc.Reached.{IsFloor, IsValid}

-- `n` ticks of one kind.
abbrev pub ticks : ℕ → Bool → TemporalSvcController → TemporalSvcController
ticks zero overuse c = c
ticks (suc n) overuse c = ticks n overuse (update c overuse)

abbrev at : TemporalLayerAssigner → ℕ → ℕ → ℕ → TemporalSvcController
at assigner floor overuse underuse = record {
  assigner = assigner;
  drop_floor = floor;
  overuse_ticks = overuse;
  underuse_ticks = underuse;
}

-- Ticks below the threshold are counted.
overused :
    (n : ℕ) (a : TemporalLayerAssigner) (floor o u : ℕ)
    → o + suc n < 3
    → ticks (suc n) true (at a floor o u) ≡ at a floor (o + suc n) 0
unfolding update
overused zero a floor o u h = let below : leb 3 (o + 1) ≡ false = ground (arith, h) in rw below refl
overused (suc n) a floor o u h =
    let below : leb 3 (o + 1) ≡ false = ground (arith, h) in
    let sum : o + 1 + suc n ≡ o + suc (suc n) = omega arith in
    rw below (overused n a floor (o + 1) 0 (omega (arith, h)) ∙ ap (λ k. at a floor k 0) sum)

cleared :
    (n : ℕ) (a : TemporalLayerAssigner) (floor o u : ℕ)
    → u + suc n < 30
    → ticks (suc n) false (at a floor o u) ≡ at a floor 0 (u + suc n)
unfolding update
cleared zero a floor o u h = let below : leb 30 (u + 1) ≡ false = ground (arith, h) in rw below refl
cleared (suc n) a floor o u h =
    let below : leb 30 (u + 1) ≡ false = ground (arith, h) in
    let sum : u + 1 + suc n ≡ u + suc (suc n) = omega arith in
    rw below (cleared n a floor 0 (u + 1) (omega (arith, h)) ∙ ap (λ k. at a floor 0 k) sum)

quiet_overuse :
    (n : ℕ) (c : TemporalSvcController)
    → c.overuse_ticks + n < 3
    → (ticks n true c).drop_floor ≡ c.drop_floor
quiet_overuse zero c h = refl
quiet_overuse (suc n) c h =
    ap (λ r. r.drop_floor) (overused n c.assigner c.drop_floor c.overuse_ticks c.underuse_ticks h)

quiet_clear :
    (n : ℕ) (c : TemporalSvcController)
    → c.underuse_ticks + n < 30
    → (ticks n false c).drop_floor ≡ c.drop_floor
quiet_clear zero c h = refl
quiet_clear (suc n) c h =
    ap (λ r. r.drop_floor) (cleared n c.assigner c.drop_floor c.overuse_ticks c.underuse_ticks h)

-- The tick at the threshold moves the floor and starts the count again.
escalated :
    (k : ℕ) (a : TemporalLayerAssigner) (floor o u : ℕ)
    → o + suc k ≡ 3
    → ticks (suc k) true (at a floor o u) ≡ at a (escalate a.mode floor) 0 0
unfolding update
escalated zero a floor o u h = let full : leb 3 (o + 1) ≡ true = ground (arith, h) in rw full refl
escalated (suc k) a floor o u h =
    let below : leb 3 (o + 1) ≡ false = ground (arith, h) in
    rw below (escalated k a floor (o + 1) 0 (omega (arith, h)))

relaxed :
    (k : ℕ) (a : TemporalLayerAssigner) (floor o u : ℕ)
    → u + suc k ≡ 30
    → ticks (suc k) false (at a floor o u) ≡ at a (relax a.mode floor) 0 0
unfolding update
relaxed zero a floor o u h = let full : leb 30 (u + 1) ≡ true = ground (arith, h) in rw full refl
relaxed (suc k) a floor o u h =
    let below : leb 30 (u + 1) ≡ false = ground (arith, h) in
    rw below (relaxed k a floor 0 (u + 1) (omega (arith, h)))

ticks_add :
    (m n : ℕ) (overuse : Bool) (c : TemporalSvcController)
    → ticks (m + n) overuse c ≡ ticks n overuse (ticks m overuse c)
ticks_add zero n overuse c =
    let none_left : 0 + n ≡ n = omega arith in ap (λ k. ticks k overuse c) none_left
ticks_add (suc m) n overuse c =
    let more : suc m + n ≡ suc (m + n) = omega arith in
    ap (λ k. ticks k overuse c) more ∙ ticks_add m n overuse (update c overuse)

escalate_twice :
    (mode : TemporalSvcMode) (floor : ℕ)
    → IsFloor mode floor
    → escalate mode (escalate mode floor) ≡ t1
unfolding escalate
escalate_twice l1t2 floor h = refl
escalate_twice l1t3 floor (inl h) = rw h refl
escalate_twice l1t3 floor (inr (inl h)) = rw h refl
escalate_twice l1t3 floor (inr (inr h)) = rw h refl

relax_twice :
    (mode : TemporalSvcMode) (floor : ℕ)
    → IsFloor mode floor
    → relax mode (relax mode floor) ≡ no_drop
unfolding relax
relax_twice l1t2 floor h = refl
relax_twice l1t3 floor (inl h) = rw h refl
relax_twice l1t3 floor (inr (inl h)) = rw h refl
relax_twice l1t3 floor (inr (inr h)) = rw h refl

six_ticks :
    (k o : ℕ) (c : TemporalSvcController)
    → IsValid c
    → c.overuse_ticks ≡ o
    → o + suc k ≡ 3
    → (ticks (suc k + (3 + o)) true c).drop_floor ≡ t1
six_ticks k o c h start sum =
    let a = c.assigner in
    let one =
      escalated k a c.drop_floor c.overuse_ticks c.underuse_ticks (omega (arith, start, sum)) in
    let first = escalate a.mode c.drop_floor in
    let two = escalated 2 a first 0 0 refl in
    let last = at a (escalate a.mode first) 0 0 in
    ap (λ r. r.drop_floor)
      (ticks_add (suc k) (3 + o) true c
        ∙ ap (ticks (3 + o) true) one
        ∙ ticks_add 3 o true (at a first 0 0)
        ∙ ap (ticks o true) two)
    ∙ quiet_overuse o last (omega (arith, sum))
    ∙ escalate_twice a.mode c.drop_floor h.floor

sixty_ticks :
    (k u : ℕ) (c : TemporalSvcController)
    → IsValid c
    → c.underuse_ticks ≡ u
    → u + suc k ≡ 30
    → (ticks (suc k + (30 + u)) false c).drop_floor ≡ no_drop
sixty_ticks k u c h start sum =
    let a = c.assigner in
    let one =
      relaxed k a c.drop_floor c.overuse_ticks c.underuse_ticks (omega (arith, start, sum)) in
    let first = relax a.mode c.drop_floor in
    let two = relaxed 29 a first 0 0 refl in
    let last = at a (relax a.mode first) 0 0 in
    ap (λ r. r.drop_floor)
      (ticks_add (suc k) (30 + u) false c
        ∙ ap (ticks (30 + u) false) one
        ∙ ticks_add 30 u false (at a first 0 0)
        ∙ ap (ticks u false) two)
    ∙ quiet_clear u last (omega (arith, sum))
    ∙ relax_twice a.mode c.drop_floor h.floor

-- From any controller that ticks and frames lead to: six ticks of overuse in a row leave only the
-- base layer, sixty ticks without overuse in a row restore every layer, and as long as the ticks of
-- one kind are fewer than the threshold, counted with those that came just before, the floor stays.
ticks-drop_floor :
    (c : TemporalSvcController) (n m : ℕ)
    → IsValid c
    → c.overuse_ticks + n < overuse_escalate_ticks
    → c.underuse_ticks + m < underuse_relax_ticks
    → ((ticks 6 true c).drop_floor ≡ t1)
      × ((ticks 60 false c).drop_floor ≡ no_drop)
      × ((ticks n true c).drop_floor ≡ c.drop_floor)
      × ((ticks m false c).drop_floor ≡ c.drop_floor)
ticks-drop_floor c n m h few_over few_clear =
    let o = c.overuse_ticks in
    let u = c.underuse_ticks in
    let six : suc (2 - o) + (3 + o) ≡ 6 = omega (arith, h.overuse) in
    let sixty : suc (29 - u) + (30 + u) ≡ 60 = omega (arith, h.underuse) in
    (
      ap (λ k. (ticks k true c).drop_floor) (sym six)
          ∙ six_ticks (2 - o) o c h refl (omega (arith, h.overuse)),
      ap (λ k. (ticks k false c).drop_floor) (sym sixty)
          ∙ sixty_ticks (29 - u) u c h refl (omega (arith, h.underuse)),
      quiet_overuse n c few_over,
      quiet_clear m c few_clear,
    )
