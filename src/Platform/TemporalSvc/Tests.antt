-- ===== src/Platform/TemporalSvc/Tests.antt =====
-- core/platform/src/temporal_svc.rs: runs of the controller.
use lowband.Prelude.{◌≡◌, refl, arith, inl, inr, true, false, List, [], ◌∷◌}
use lowband.Platform.TemporalSvc.{
  l1t3, TemporalSvcController, t1, t2, update, escalate, next_frame, next_layer, layer_for,
  active_frame_quarters,
}
use lowband.Platform.TemporalSvc.Reached.{IsValid, Event, tick, frame}
use lowband.Platform.TemporalSvc.Forwarded.{forwarded, forwarded-active_frame_quarters}

-- Two ticks of overuse, and the counter of frames about to wrap.
abbrev strained : TemporalSvcController
strained = record {
  assigner = (record { mode = l1t3; frame_count = 18446744073709551614 });
  drop_floor = t2;
  overuse_ticks = 2;
  underuse_ticks = 0;
}

strained-IsValid : IsValid strained
strained-IsValid = record {
  floor = (inr (inl refl));
  overuse = omega arith;
  underuse = omega arith;
  frames = omega arith;
}

strained-update : (update strained true).drop_floor ≡ t1
unfolding update escalate
strained-update = refl

strained_frames : forwarded 4 strained ≡ 2
unfolding next_frame next_layer layer_for
strained_frames = refl

forwarded-active_frame_quarters_example : forwarded 4 strained ≡ active_frame_quarters l1t3 t2
forwarded-active_frame_quarters_example = forwarded-active_frame_quarters strained strained-IsValid

abbrev events : List Event
events = tick true ∷ frame ∷ tick true ∷ tick true ∷ frame ∷ tick false ∷ []
