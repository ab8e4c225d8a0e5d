-- ===== src/Transport/Mtu/Tests.antt =====
-- core/lbtp/src/mtu.rs: runs, and the theorems at concrete inputs.
use lowband.Prelude.{◌≡◌, ◌≢◌, refl, arith, List, [], ◌∷◌}
use lowband.Transport.Mtu.{
  PathMtuController, probing, complete, new, start_probe, tick, on_probe_acked,
}
use lowband.Transport.Mtu.Ladder.{OnLadder, Input, start, tick_timer, ack, step, run}

abbrev climb : List Input
climb = start ∷ tick_timer ∷ ack 1400 ∷ ack 1400 ∷ start ∷ ack 1452 ∷ start ∷ ack 1500 ∷ start ∷ []

climbs_to_top : run new climb ≡ record { path_mtu = 1500; state = complete }
unfolding run step start_probe tick on_probe_acked new
climbs_to_top = refl

new-OnLadder : OnLadder new
unfolding new
new-OnLadder = omega arith

abbrev in_flight : PathMtuController
in_flight = record { path_mtu = 1200; state = probing 1400 0 3 10 }

raised : 1200 ≢ (step in_flight (ack 1400)).path_mtu
unfolding step on_probe_acked
raised = omega arith
