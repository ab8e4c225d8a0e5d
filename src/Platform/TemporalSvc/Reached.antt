-- ===== src/Platform/TemporalSvc/Reached.antt =====
-- core/platform/src/temporal_svc.rs: what holds after any ticks and frames.
use lowband.Prelude.{
  ℕ, ◌+◌, ◌^◌, ◌<◌, ◌≡◌, ◌⊎◌, refl, arith, inl, inr, Bool, true, false, List, [], ◌∷◌, leb, ◌==◌,
  Bool-cases, ◌&&◌,
}
use lowband.Platform.TemporalSvc.{
  TemporalSvcMode, l1t2, l1t3, TemporalSvcController, overuse_escalate_ticks, underuse_relax_ticks,
  t0, t1, t2, no_drop, new, escalate, relax, update, next_layer, next_frame,
}

-- The floors of a mode.
abbrev pub IsFloor : TemporalSvcMode → ℕ → Type 0
IsFloor l1t2 floor = (floor ≡ no_drop) ⊎ (floor ≡ t1)
IsFloor l1t3 floor = (floor ≡ no_drop) ⊎ ((floor ≡ t2) ⊎ (floor ≡ t1))

pub record IsValid (c : TemporalSvcController) : Type 0 where
  pub floor : IsFloor c.assigner.mode c.drop_floor
  pub overuse : c.overuse_ticks < overuse_escalate_ticks
  pub underuse : c.underuse_ticks < underuse_relax_ticks
  pub frames : c.assigner.frame_count < 2 ^ 64

escalate-IsFloor : (mode : TemporalSvcMode) (floor : ℕ) → IsFloor mode (escalate mode floor)
unfolding escalate
escalate-IsFloor l1t2 floor = inr refl
escalate-IsFloor l1t3 floor = elim (Bool-cases (floor == no_drop)) [
  | inl h ↦ rw h (inr (inl refl))
  | inr h ↦ rw h (inr (inr refl))
]

relax-IsFloor : (mode : TemporalSvcMode) (floor : ℕ) → IsFloor mode (relax mode floor)
unfolding relax
relax-IsFloor l1t2 floor = inl refl
relax-IsFloor l1t3 floor = elim (Bool-cases (leb floor t1)) [
  | inl h ↦ rw h (inr (inl refl))
  | inr h ↦ rw h (inl refl)
]

update-IsValid :
    (c : TemporalSvcController) (overuse : Bool) → IsValid c → IsValid (update c overuse)
unfolding update
update-IsValid c true h = elim (Bool-cases (leb overuse_escalate_ticks (c.overuse_ticks + 1))) [
  | inl full ↦ rw full (record {
    floor = (escalate-IsFloor c.assigner.mode c.drop_floor);
    overuse = omega arith;
    underuse = omega arith;
    frames = h.frames;
  })
  | inr more ↦ rw more (record {
    floor = h.floor;
    overuse = (ground (arith, more));
    underuse = omega arith;
    frames = h.frames;
  })
]
update-IsValid c false h = elim (Bool-cases (leb underuse_relax_ticks (c.underuse_ticks + 1))) [
  | inl full ↦ rw full (record {
    floor = (relax-IsFloor c.assigner.mode c.drop_floor);
    overuse = omega arith;
    underuse = omega arith;
    frames = h.frames;
  })
  | inr more ↦ rw more (record {
    floor = h.floor;
    overuse = omega arith;
    underuse = (ground (arith, more));
    frames = h.frames;
  })
]

next_frame-IsValid : (c : TemporalSvcController) → IsValid c → IsValid (next_frame c).0
unfolding next_frame next_layer
next_frame-IsValid c h = record {
  floor = h.floor;
  overuse = h.overuse;
  underuse = h.underuse;
  frames = omega arith;
}

pub new-IsValid : (mode : TemporalSvcMode) → IsValid (new mode)
unfolding new
new-IsValid l1t2 = record {
  floor = (inl refl);
  overuse = omega arith;
  underuse = omega arith;
  frames = omega arith;
}
new-IsValid l1t3 = record {
  floor = (inl refl);
  overuse = omega arith;
  underuse = omega arith;
  frames = omega arith;
}

-- A tick of the governor, or a frame of the encoder.
pub data Event : Type 0 where
  tick : Bool → Event
  frame : Event

abbrev pub run : TemporalSvcController → List Event → TemporalSvcController
run c [] = c
run c (tick overuse ∷ es) = run (update c overuse) es
run c (frame ∷ es) = run (next_frame c).0 es

run-IsValid : (c : TemporalSvcController) (es : List Event) → IsValid c → IsValid (run c es)
run-IsValid c [] h = h
run-IsValid c (tick overuse ∷ es) h = run-IsValid (update c overuse) es (update-IsValid c overuse h)
run-IsValid c (frame ∷ es) h = run-IsValid (next_frame c).0 es (next_frame-IsValid c h)

floor_positive : (mode : TemporalSvcMode) (floor : ℕ) → IsFloor mode floor → 0 < floor
floor_positive l1t2 floor (inl h) = omega (arith, h)
floor_positive l1t2 floor (inr h) = omega (arith, h)
floor_positive l1t3 floor (inl h) = omega (arith, h)
floor_positive l1t3 floor (inr (inl h)) = omega (arith, h)
floor_positive l1t3 floor (inr (inr h)) = omega (arith, h)

drop_floor-next_frame :
    (c : TemporalSvcController) → (next_frame c).2 ≡ leb c.drop_floor (next_frame c).1
unfolding next_frame
drop_floor-next_frame c = refl

-- After any ticks and frames, in any order, the counters of ticks are below their thresholds, so
-- that they never overflow, and a frame of the base layer is not withheld.
next_frame_base :
    (mode : TemporalSvcMode) (es : List Event)
    → let c = run (new mode) es in
      (c.overuse_ticks < overuse_escalate_ticks)
      × (c.underuse_ticks < underuse_relax_ticks)
      × (((next_frame c).1 == t0 && (next_frame c).2) ≡ false)
next_frame_base mode es =
    let c = run (new mode) es in
    let h = run-IsValid (new mode) es (new-IsValid mode) in
    let positive = floor_positive c.assigner.mode c.drop_floor h.floor in
    (h.overuse, h.underuse, rw (drop_floor-next_frame c) (ground (arith, positive)))
