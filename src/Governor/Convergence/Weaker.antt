-- ===== src/Governor/Convergence/Weaker.antt =====
-- core/platform/src/governor_summary.rs and core/platform/src/governor_load_shed.rs: what two peers
-- agree on.
use lowband.Prelude.{ℕ, ◌≤◌, ◌≡◌, refl, arith, true, false, ltb, min, Bool-cases, ◌⊎◌, inl, inr}
use lowband.Governor.Tier.{TierState, survival, constrained, comfortable, full, rank}
use lowband.Governor.Gears.{GearConstraints}
use lowband.Governor.Budget.{allocate}
use lowband.Governor.Budget.Priority.{allocate_mono}
use lowband.Governor.ControlLoop.{GovernorSummary}
use lowband.Governor.Convergence.{
  ConvergedSummary, min_tier, converge_summaries, bulk_xfer_headroom_bps, bulk_xfer_frozen,
}

min_tier_comm : (a b : TierState) → min_tier a b ≡ min_tier b a
unfolding min_tier
min_tier_comm survival survival = refl
min_tier_comm survival constrained = refl
min_tier_comm survival comfortable = refl
min_tier_comm survival full = refl
min_tier_comm constrained survival = refl
min_tier_comm constrained constrained = refl
min_tier_comm constrained comfortable = refl
min_tier_comm constrained full = refl
min_tier_comm comfortable survival = refl
min_tier_comm comfortable constrained = refl
min_tier_comm comfortable comfortable = refl
min_tier_comm comfortable full = refl
min_tier_comm full survival = refl
min_tier_comm full constrained = refl
min_tier_comm full comfortable = refl
min_tier_comm full full = refl

min_tier_left : (a b : TierState) → rank (min_tier a b) ≤ rank a
unfolding min_tier
min_tier_left a b = elim (Bool-cases (ltb (rank b) (rank a))) [
  | inl below ↦ rw below (ground (arith, below))
  | inr above ↦ rw above (omega arith)
]

lowest : (b : TierState) → min_tier survival b ≡ survival
unfolding min_tier
lowest survival = refl
lowest constrained = refl
lowest comfortable = refl
lowest full = refl

headroom_survival :
    (a b : TierState) (bps : ℕ)
    → a ≡ survival
    → (bulk_xfer_headroom_bps (min_tier a b) bps ≡ 0) × (bulk_xfer_frozen (min_tier a b) ≡ true)
unfolding bulk_xfer_headroom_bps bulk_xfer_frozen
headroom_survival a b bps e =
    let low : min_tier a b ≡ survival = rw e (lowest b) in (rw low refl, rw low refl)

frozen_iff : (a : TierState) → bulk_xfer_frozen a ≡ true → a ≡ survival
unfolding bulk_xfer_frozen
frozen_iff survival h = refl
frozen_iff constrained h = cc
frozen_iff comfortable h = cc
frozen_iff full h = cc

same_both :
    {t t' : TierState} {b b' r r' l l' : ℕ}
    → t ≡ t'
    → b ≡ b'
    → r ≡ r'
    → l ≡ l'
    → ◌≡◌ {A = ConvergedSummary}
        (record { tier = t; bwe_bps = b; rtt_ms = r; loss_ppm = l })
        (record { tier = t'; bwe_bps = b'; rtt_ms = r'; loss_ppm = l' })
same_both et eb er el = cc

-- Both peers, each with its own summary first, come to the same tier, estimate, round trip and loss. Tier and
-- estimate exceed neither peer's own, so that under the same constraints no stream gets more than
-- the peer's own estimate would give it, and a peer that is frozen makes both frozen, with no
-- headroom for bulk transfer.
pub converge_summaries_comm :
    (here there : GovernorSummary) (c : GearConstraints) (bps : ℕ)
    → let both = converge_summaries here there in
      (both ≡ converge_summaries there here)
      × (rank both.tier ≤ rank here.tier)
      × (both.bwe_bps ≤ here.bwe_bps)
      × ((allocate both.bwe_bps c).audio_bps ≤ (allocate here.bwe_bps c).audio_bps)
      × ((allocate both.bwe_bps c).input_bps ≤ (allocate here.bwe_bps c).input_bps)
      × ((allocate both.bwe_bps c).screen_coarse_bps ≤ (allocate here.bwe_bps c).screen_coarse_bps)
      × ((allocate both.bwe_bps c).camera_bps ≤ (allocate here.bwe_bps c).camera_bps)
      × ((allocate both.bwe_bps c).screen_refinement_bps
          ≤ (allocate here.bwe_bps c).screen_refinement_bps)
      × ((allocate both.bwe_bps c).xfer_bps ≤ (allocate here.bwe_bps c).xfer_bps)
      × ((bulk_xfer_frozen here.tier ≡ false)
          ⊎ ((bulk_xfer_headroom_bps both.tier bps ≡ 0) × (bulk_xfer_frozen both.tier ≡ true)))
unfolding converge_summaries
converge_summaries_comm here there c bps =
    let (a, i, s, v, f, x) =
      allocate_mono (min here.bwe_bps there.bwe_bps) here.bwe_bps c (omega arith) in
    (
      same_both (min_tier_comm here.tier there.tier) (omega arith) (omega arith) (omega arith),
      min_tier_left here.tier there.tier,
      omega arith,
      a,
      i,
      s,
      v,
      f,
      x,
      elim (Bool-cases (bulk_xfer_frozen here.tier)) [
        | inl frozen ↦
            inr (headroom_survival here.tier there.tier bps (frozen_iff here.tier frozen))
        | inr runs ↦ inl runs
      ],
    )
