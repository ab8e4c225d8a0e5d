-- ===== src/Transfer/Scheduler.antt =====
-- core/xfer/src/scheduler.rs: bulk frames leave only when voice and input are silent and the governor
-- has granted headroom.
pub mod Gates
pub mod Spending
mod Tests
use lowband.Prelude.{
  ℕ, ◌+◌, ◌-◌, Bool, true, false, ◌||◌, ◌&&◌, List, [], ◌∷◌, ◌++◌, length, ltb, ◌==◌, if◌then◌else◌,
}

abbrev pub datagram_overhead : ℕ
datagram_overhead = 19

abbrev pub frame_header_overhead : ℕ
frame_header_overhead = 2

abbrev pub max_datagram_xfer_bytes : ℕ
max_datagram_xfer_bytes = 1200 - datagram_overhead

pub record PacerDemand : Type 0 where
  pub voice_pending : ℕ
  pub input_pending : ℕ

abbrev pub blocks_bulk : PacerDemand → Bool
blocks_bulk d = ltb 0 d.voice_pending || ltb 0 d.input_pending

pub record XferFrame : Type 0 where
  pub payload : List ℕ
  pub object_id : ℕ
  pub esi : ℕ

-- `AggregatedDatagram::data_bytes`
abbrev pub data_bytes : List XferFrame → ℕ
data_bytes [] = 0
data_bytes (f ∷ fs) = length f.payload + data_bytes fs

-- The datagram of `send_aggregated` is its frames.
pub data TickResult : Type 0 where
  send_aggregated : List XferFrame → TickResult
  held_for_priority held_for_headroom : TickResult
  nothing_queued : TickResult

pub record BulkTransferScheduler : Type 0 where
  pub queue : List XferFrame
  pub headroom_remaining : ℕ

unfoldable pub new : BulkTransferScheduler
new = record { queue = []; headroom_remaining = 0 }

pub set_headroom : BulkTransferScheduler → ℕ → BulkTransferScheduler
set_headroom s bytes = record s { headroom_remaining = bytes }

pub enqueue : BulkTransferScheduler → XferFrame → BulkTransferScheduler
enqueue s f = record s { queue = s.queue ++ (f ∷ []) }

-- The variables of the loop of `tick`, and the queue that it has left.
pub record Packing : Type 0 where
  pub frames : List XferFrame
  pub left : List XferFrame
  pub headroom_used : ℕ

-- `!frames.is_empty()`
abbrev is_used : List XferFrame → Bool
is_used [] = false
is_used (f ∷ fs) = true

pack : ℕ → List XferFrame → List XferFrame → ℕ → ℕ → Packing
pack headroom [] frames datagram_used headroom_used = record {
  frames = frames;
  left = [];
  headroom_used = headroom_used;
}
pack headroom (f ∷ queue) frames datagram_used headroom_used =
    let slot = frame_header_overhead + length f.payload in
    let stop : Packing = record {
      frames = frames;
      left = f ∷ queue;
      headroom_used = headroom_used;
    } in
    let next =
      pack headroom queue (frames ++ (f ∷ [])) (datagram_used + slot)
        (headroom_used + length f.payload) in
    if is_used frames && ltb max_datagram_xfer_bytes (datagram_used + slot)
    then stop
    else if ltb headroom (headroom_used + length f.payload)
    then stop
    else next

send : BulkTransferScheduler → Packing → BulkTransferScheduler × TickResult
send s p = (
  record { queue = p.left; headroom_remaining = s.headroom_remaining - p.headroom_used },
  send_aggregated p.frames,
)

-- Behind both gates, by the front of the queue.
tick_front : BulkTransferScheduler → List XferFrame → BulkTransferScheduler × TickResult
unfolding pack send
tick_front s [] = (s, nothing_queued)
tick_front s (f ∷ queue) =
    if ltb s.headroom_remaining (length f.payload)
    then (s, held_for_headroom)
    else send s (pack s.headroom_remaining (f ∷ queue) [] 0 0)

unfoldable pub tick : BulkTransferScheduler → PacerDemand → BulkTransferScheduler × TickResult
unfolding tick_front
tick s demand =
    if blocks_bulk demand
    then (s, held_for_priority)
    else if s.headroom_remaining == 0
    then (s, held_for_headroom)
    else tick_front s s.queue
