-- ===== src/Transfer/Scheduler/Tests.antt =====
-- core/xfer/src/scheduler.rs: runs, and the theorems at concrete inputs.
use lowband.Prelude.{ℕ, ◌+◌, ◌≡◌, refl, List, [], ◌∷◌, ◌++◌, replicate}
use lowband.Transfer.Scheduler.{
  PacerDemand, XferFrame, data_bytes, held_for_priority, BulkTransferScheduler, set_headroom, tick,
}
use lowband.Transfer.Scheduler.Spending.{interval, interval-Conserves}

abbrev silent : PacerDemand
silent = record { voice_pending = 0; input_pending = 0 }

abbrev talking : PacerDemand
talking = record { voice_pending = 80; input_pending = 0 }

abbrev chunk : ℕ → XferFrame
chunk n = record { payload = replicate n 0; object_id = 7; esi = n }

abbrev loaded : BulkTransferScheduler
loaded = record { queue = chunk 100 ∷ chunk 60 ∷ chunk 90 ∷ []; headroom_remaining = 170 }

voice_holds : (tick loaded talking).1 ≡ held_for_priority
unfolding tick
voice_holds = refl

abbrev demands : List PacerDemand
demands = talking ∷ silent ∷ silent ∷ []

interval-Conserves_example :
    (loaded.queue
      ≡ (interval (set_headroom loaded 200) demands).1
        ++ (interval (set_headroom loaded 200) demands).0.queue)
    × ((interval (set_headroom loaded 200) demands).0.headroom_remaining
          + data_bytes (interval (set_headroom loaded 200) demands).1
        ≡ 200)
interval-Conserves_example = interval-Conserves loaded 200 demands
