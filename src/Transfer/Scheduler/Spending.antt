-- ===== src/Transfer/Scheduler/Spending.antt =====
-- core/xfer/src/scheduler.rs: over the ticks of one interval, a grant is never overspent.
use lowband.Prelude.{ℕ, ◌+◌, ◌≡◌, refl, sym, ap, ◌∙◌, arith, List, [], ◌∷◌, ◌++◌, append_assoc}
use lowband.Transfer.Scheduler.{
  PacerDemand, XferFrame, data_bytes, TickResult, send_aggregated, held_for_priority,
  held_for_headroom, nothing_queued, BulkTransferScheduler, set_headroom, tick,
}
use lowband.Transfer.Scheduler.Gates.{
  Outcome, by_priority, by_headroom, nothing, sent, tick-Outcome,
}

-- The frames that a tick sends.
abbrev pub frames_of : TickResult → List XferFrame
frames_of (send_aggregated frames) = frames
frames_of held_for_priority = []
frames_of held_for_headroom = []
frames_of nothing_queued = []

-- The ticks of one interval, with the demand that each meets: the scheduler after, and all frames sent.
unfoldable pub interval :
    BulkTransferScheduler → List PacerDemand → BulkTransferScheduler × List XferFrame
interval s [] = (s, [])
interval s (d ∷ ds) =
    let (s', frames) = interval (tick s d).0 ds in (s', frames_of (tick s d).1 ++ frames)

data_bytes-append : (fs gs : List XferFrame) → data_bytes (fs ++ gs) ≡ data_bytes fs + data_bytes gs
data_bytes-append [] gs = omega arith
data_bytes-append (f ∷ fs) gs = omega (arith, data_bytes-append fs gs)

abbrev Conserves : BulkTransferScheduler → BulkTransferScheduler → List XferFrame → Type 0
Conserves s s' frames =
    (s.queue ≡ frames ++ s'.queue)
    × (s'.headroom_remaining + data_bytes frames ≡ s.headroom_remaining)

unchanged :
    (s s' : BulkTransferScheduler) (r : TickResult)
    → s' ≡ s
    → frames_of r ≡ []
    → Conserves s s' (frames_of r)
unchanged s s' r e n = rw (e, n) (refl, omega arith)

outcome-Conserves :
    (s s' : BulkTransferScheduler) (d : PacerDemand) (r : TickResult)
    → Outcome s d s' r
    → Conserves s s' (frames_of r)
outcome-Conserves s s' d r (by_priority e same _) = unchanged s s' r same (ap frames_of e)
outcome-Conserves s s' d r (by_headroom e same _) = unchanged s s' r same (ap frames_of e)
outcome-Conserves s s' d r (nothing e same _) = unchanged s s' r same (ap frames_of e)
outcome-Conserves s s' d r (sent frames e v i h) = rw e (h.kept, h.spent)

tick-Conserves :
    (s : BulkTransferScheduler) (d : PacerDemand)
    → Conserves s (tick s d).0 (frames_of (tick s d).1)
tick-Conserves s d = outcome-Conserves s _ d _ (tick-Outcome s d)

run-Conserves :
    (s : BulkTransferScheduler) (ds : List PacerDemand)
    → Conserves s (interval s ds).0 (interval s ds).1
unfolding interval
run-Conserves s [] = (refl, omega arith)
run-Conserves s (d ∷ ds) =
    let (kept, spent) = tick-Conserves s d in
    let (kept', spent') = run-Conserves (tick s d).0 ds in
    (
      kept
          ∙ ap (λ l. frames_of (tick s d).1 ++ l) kept'
          ∙ sym (append_assoc (frames_of (tick s d).1) (interval (tick s d).0 ds).1 _),
      omega (
        arith,
        spent,
        spent',
        data_bytes-append (frames_of (tick s d).1) (interval (tick s d).0 ds).1,
      ),
    )

-- Over any number of ticks after a grant of `bytes`, whatever the demands: the frames sent are the front
-- of the queue, each once and in order, and their bytes and the headroom left add up to the grant.
pub interval-Conserves :
    (s : BulkTransferScheduler) (bytes : ℕ) (ds : List PacerDemand)
    → (s.queue
        ≡ (interval (set_headroom s bytes) ds).1 ++ (interval (set_headroom s bytes) ds).0.queue)
      × ((interval (set_headroom s bytes) ds).0.headroom_remaining
            + data_bytes (interval (set_headroom s bytes) ds).1
          ≡ bytes)
unfolding set_headroom
interval-Conserves s bytes ds = run-Conserves (record s { headroom_remaining = bytes }) ds
