-- ===== src/Transport/Pacer/Tests.antt =====
-- core/lbtp/src/pacer.rs: runs over whole numbers for floats, and the theorems at concrete inputs.
use lowband.Prelude.{ℕ, zero, suc, ◌≡◌, refl, arith, some, List, [], ◌∷◌, length, replicate}
use lowband.Prelude.Float.{whole}
use lowband.Transport.Mtu
use lowband.Transport.Mtu.{make_probe, start_probe}
use lowband.Transport.Pacer.{PacerFrame, Queues, Pacer, dequeue, dequeue_scan, drain_tick}
use lowband.Transport.Pacer.Drained.{SubLowers, IsTidy}
use lowband.Transport.Pacer.Coalesce.{Coalesced, drain_tick-Coalesced}

whole-SubLowers : SubLowers whole
whole-SubLowers t m n h = ground arith

abbrev frame : ℕ → ℕ → PacerFrame
frame ch n = record { channel = ch; payload = replicate n 0 }

abbrev two_queues : Queues
two_queues (suc zero) = frame 1 80 ∷ frame 1 40 ∷ []
two_queues (suc (suc (suc zero))) = frame 3 32 ∷ []
two_queues _ = []

abbrev busy : Pacer whole
busy = record { queues = two_queues; token_bytes = 125; rate_bps = 200_000; burst_cap_bytes = 125 }

two_queues-IsTidy : IsTidy two_queues
two_queues-IsTidy (suc zero) = omega arith
two_queues-IsTidy (suc (suc (suc zero))) = omega arith
two_queues-IsTidy zero = tt
two_queues-IsTidy (suc (suc zero)) = tt
two_queues-IsTidy (suc (suc (suc (suc ch)))) = tt

-- Input leaves before audio.
input_first : (dequeue whole busy).1 ≡ some (frame 3 32)
unfolding dequeue dequeue_scan
input_first = refl

drain_tick-Coalesced_example :
    (p' : Pacer whole) × (sent : List PacerFrame) × (drain_tick whole busy ≡ some (p', sent))
    × Coalesced whole whole-SubLowers busy p' sent
drain_tick-Coalesced_example = drain_tick-Coalesced whole whole-SubLowers busy two_queues-IsTidy

first_probe : (start_probe Mtu.new).1 ≡ some (make_probe 1400)
unfolding start_probe Mtu.new
first_probe = refl

probe_padding : length {A = ℕ} (replicate 1381 0) ≡ (make_probe 1400).payload_bytes
unfolding make_probe
probe_padding = refl
