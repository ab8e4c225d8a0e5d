-- ===== src/Governor/Tier/Hold.antt =====
-- core/platform/src/tier_classifier.rs: a tier goes up only after fifty ticks in a row, and then does.
use lowband.Prelude.{
  ℕ, zero, suc, ◌≤◌, ◌<◌, ◌≡◌, refl, arith, some, List, [], ◌∷◌, length, ◌⊎◌, inl, inr, ap, sym,
}
use lowband.Governor.Tier.{
  TierState, survival, constrained, comfortable, full, rank, tier_step_up, GovernorTierEmitter,
  new_emitter, emitter_tick, upgrade_hold_ticks,
}
use lowband.Governor.Tier.Moves.{floor_of}

-- The emitter with the tier that it is fed back on the next tick.
pub record Governed : Type 0 where
  pub emitter : GovernorTierEmitter
  pub tier : TierState

abbrev pub advance : Governed → ℕ → Governed
advance g bwe = record {
  emitter = (emitter_tick g.emitter g.tier bwe).0;
  tier = (emitter_tick g.emitter g.tier bwe).1;
}

-- A history of estimates, the newest first.
unfoldable pub run : Governed → List ℕ → Governed
run g [] = g
run g (bwe ∷ past) = advance (run g past) bwe

-- Each of the `n` newest estimates reaches `floor`, and the history has that many.
abbrev pub Sustained : ℕ → ℕ → List ℕ → Type 0
Sustained floor zero past = Unit {0}
Sustained floor (suc n) [] = ⊥
Sustained floor (suc n) (bwe ∷ past) = (floor ≤ bwe) × Sustained floor n past

-- The floor of the tier above, where there is one.
abbrev pub next_floor : TierState → ℕ
next_floor survival = 64_000
next_floor constrained = 128_000
next_floor comfortable = 256_000
next_floor full = 0

abbrev pub start_at : TierState → Governed
start_at t = record { emitter = new_emitter; tier = t }

abbrev Held : Governed → List ℕ → Type 0
Held g past =
    (g.emitter.upgrade_guard.hold_ticks < upgrade_hold_ticks)
    × Sustained (next_floor g.tier) g.emitter.upgrade_guard.hold_ticks past

abbrev hold : Governed → ℕ
hold g = g.emitter.upgrade_guard.hold_ticks

-- The new hold counter is 0, or one more at the same tier with the estimate above the next floor.
hold-advance :
    (g : Governed) (bwe : ℕ)
    → hold g < 50
    → ((hold (advance g bwe) ≡ 0)
        ⊎ ((hold (advance g bwe) ≡ suc (hold g))
            × (suc (hold g) < 50)
            × ((advance g bwe).tier ≡ g.tier)
            × (next_floor g.tier ≤ bwe)))
unfolding emitter_tick
hold-advance g bwe h = go g.tier refl
  where
    go :
        (t : TierState)
        → g.tier ≡ t
        → ((hold (advance g bwe) ≡ 0)
            ⊎ ((hold (advance g bwe) ≡ suc (hold g))
                × (suc (hold g) < 50)
                × ((advance g bwe).tier ≡ g.tier)
                × (next_floor g.tier ≤ bwe)))
    go survival e = ground arith
    go constrained e = ground arith
    go comfortable e = ground arith
    go full e = ground arith

pub Sustained-eq :
    {f f' n n' : ℕ} (past : List ℕ) → f ≡ f' → n ≡ n' → Sustained f' n' past → Sustained f n past
Sustained-eq past p q h = rw (p, q) h

advance-Held :
    (g : Governed) (bwe : ℕ) (past : List ℕ) → Held g past → Held (advance g bwe) (bwe ∷ past)
advance-Held g bwe past (h, s) = elim (hold-advance g bwe h) [
  | inl z ↦ (omega arith, Sustained-eq (bwe ∷ past) refl z tt)
  | inr (up, lt, same, enough) ↦
      (omega arith, Sustained-eq (bwe ∷ past) (ap next_floor same) up (enough, s))
]

run-Held : (t : TierState) (past : List ℕ) → Held (run (start_at t) past) past
unfolding run new_emitter
run-Held t [] = (omega arith, tt)
run-Held t (bwe ∷ past) = advance-Held (run (start_at t) past) bwe past (run-Held t past)

raise_floor :
    (g : Governed) (bwe : ℕ)
    → rank g.tier < rank (advance g bwe).tier
    → hold g < 50
    → (next_floor g.tier ≤ bwe)
      × (hold g ≡ 49)
      × (floor_of (advance g bwe).tier ≡ next_floor g.tier)
unfolding emitter_tick
raise_floor g bwe h k = go g.tier refl
  where
    go :
        (t : TierState)
        → g.tier ≡ t
        → (next_floor g.tier ≤ bwe)
          × (hold g ≡ 49)
          × (floor_of (advance g bwe).tier ≡ next_floor g.tier)
    go survival e = ground arith
    go constrained e = ground arith
    go comfortable e = ground arith
    go full e = ground arith

-- From any starting tier and over any history: when a tick raises the tier, that estimate and the 49
-- before it all reached the floor of the tier it is raised to.
pub raise-Sustained :
    (t : TierState) (bwe : ℕ) (past : List ℕ)
    → rank (run (start_at t) past).tier < rank (run (start_at t) (bwe ∷ past)).tier
    → Sustained (floor_of (run (start_at t) (bwe ∷ past)).tier) upgrade_hold_ticks (bwe ∷ past)
unfolding run
raise-Sustained t bwe past h =
    let g : Governed = run (start_at t) past in
    let (lt, held) = run-Held t past in
    let (enough, full_hold, floor) = raise_floor g bwe h lt in
    Sustained-eq (bwe ∷ past) floor (ap suc (sym full_hold)) (enough, held)

-- One sustained tick at tier `t`, whose next tier is `u`.
sustained_tick :
    (e : GovernorTierEmitter) (t u : TierState) (bwe : ℕ)
    → tier_step_up t ≡ some u
    → floor_of u ≤ bwe
    → suc e.upgrade_guard.hold_ticks < 50
    → ((emitter_tick e t bwe).0.upgrade_guard.hold_ticks ≡ suc e.upgrade_guard.hold_ticks)
      × ((emitter_tick e t bwe).1 ≡ t)
unfolding emitter_tick
sustained_tick e survival u bwe s h k = ground arith
sustained_tick e constrained u bwe s h k = ground arith
sustained_tick e comfortable u bwe s h k = ground arith
sustained_tick e full u bwe s h k = cc

last_tick :
    (e : GovernorTierEmitter) (t u : TierState) (bwe : ℕ)
    → tier_step_up t ≡ some u
    → floor_of u ≤ bwe
    → suc e.upgrade_guard.hold_ticks ≡ 50
    → emitter_tick e t bwe ≡ (new_emitter, u)
unfolding emitter_tick new_emitter
last_tick e survival u bwe s h k = ground arith
last_tick e constrained u bwe s h k = ground arith
last_tick e comfortable u bwe s h k = ground arith
last_tick e full u bwe s h k = cc

hold-run :
    (n : ℕ) (t u : TierState) (past : List ℕ)
    → tier_step_up t ≡ some u
    → n < 50
    → length past ≡ n
    → Sustained (floor_of u) n past
    → (hold (run (start_at t) past) ≡ n) × ((run (start_at t) past).tier ≡ t)
unfolding run new_emitter
hold-run zero t u [] s h l k = (refl, refl)
hold-run zero t u (bwe ∷ past) s h l k = absurd (omega arith)
hold-run (suc n) t u [] s h l k = absurd k
hold-run (suc n) t u (bwe ∷ past) s h l (enough, k) =
    let (held, same) = hold-run n t u past s (omega arith) (omega arith) k in
    rw same (
      let (up, stays) =
        sustained_tick (run (start_at t) past).emitter t u bwe s enough (omega arith) in
      (omega arith, stays))

-- Fifty estimates in a row at or above the next tier's floor raise a freshly started governor by
-- exactly one tier, and the hold starts anew.
pub Sustained-raise :
    (t u : TierState) (past : List ℕ)
    → tier_step_up t ≡ some u
    → length past ≡ upgrade_hold_ticks
    → Sustained (floor_of u) upgrade_hold_ticks past
    → run (start_at t) past ≡ start_at u
unfolding run
Sustained-raise t u [] s l k = absurd k
Sustained-raise t u (bwe ∷ past) s l (enough, k) =
    let (held, same) = hold-run 49 t u past s (omega arith) (omega arith) k in
    let e : emitter_tick (run (start_at t) past).emitter t bwe ≡ (new_emitter, u) =
      last_tick (run (start_at t) past).emitter t u bwe s enough (omega arith) in
    rw same (cc e)
