-- ===== src/Transport/HolePunch/Tests.antt =====
-- core/lbtp/src/hole_punch.rs: a run of the controller.
use lowband.Prelude.{◌≡◌, refl, arith, some, [], ◌∷◌, ◌++◌}
use lowband.Messaging.Bytes.{to_le_bytes}
use lowband.Transport.HolePunch.{
  connected, failed, connected_event, failed_event, new, start, new_frame, probes_sent,
  on_probe_received,
}
use lowband.Transport.HolePunch.Silence.{ticks, probes, start-ticks}

frame_bytes : new_frame 0xdead_beef 3 ≡ record { payload = 0xef ∷ 0xbe ∷ 0xad ∷ 0xde ∷ 3 ∷ [] }
unfolding new_frame to_le_bytes
frame_bytes = refl

start-ticks_example :
    ((start new 7).1 ≡ new_frame 7 0)
    × (probes_sent (ticks 32 (start new 7).0).0 ≡ 6)
    × (on_probe_received (ticks 32 (start new 7).0).0
        ≡ (record { state = connected }, some connected_event))
    × (ticks 4 (on_probe_received (ticks 32 (start new 7).0).0).0
        ≡ (record { state = connected }, []))
    × (ticks 60 (start new 7).0 ≡ (record { state = failed }, probes 7 1 9 ++ (failed_event ∷ [])))
start-ticks_example = start-ticks new 7 32 4 (omega arith)
