-- ===== src/Transport/Pacer.antt =====
-- core/lbtp/src/pacer.rs: frames of nine channels leave in priority order under a token bucket.
pub mod Scan
pub mod Drained
pub mod Coalesce
pub mod Admission
pub mod Dequeue
mod Tests
use lowband.Prelude.{
  ℕ, zero, suc, ◌+◌, ◌-◌, ◌≤◌, Bool, true, false, ◌&&◌, Option, none, some, List, [], ◌∷◌, ◌++◌,
  length, ltb, leb, ◌==◌, if◌then◌else◌,
}
use lowband.Prelude.Float.{Float}

abbrev pub num_channels : ℕ
num_channels = 9

abbrev pub burst_tolerance_ms : ℕ
burst_tolerance_ms = 5

abbrev pub datagram_overhead : ℕ
datagram_overhead = 19

abbrev pub frame_header_overhead : ℕ
frame_header_overhead = 2

abbrev pub max_datagram_payload_bytes : ℕ
max_datagram_payload_bytes = 1200 - datagram_overhead

abbrev pub max_frame_data_bytes : ℕ
max_frame_data_bytes = max_datagram_payload_bytes - frame_header_overhead

abbrev pub priority_order : List ℕ
priority_order = 0 ∷ 3 ∷ 2 ∷ 1 ∷ 4 ∷ 5 ∷ 6 ∷ 7 ∷ 8 ∷ []

pub data DeliveryClass : Type 0 where
  realtime reliable_unordered reliable_ordered : DeliveryClass

pub record PacerFrame : Type 0 where
  pub channel : ℕ
  pub payload : List ℕ

abbrev pub slot_of : PacerFrame → ℕ
slot_of f = frame_header_overhead + length f.payload

-- The array of queues, front first.
abbrev pub Queues : Type 0
Queues = ℕ → List PacerFrame

abbrev pub set_queue : Queues → ℕ → List PacerFrame → Queues
set_queue qs ch q j = if j == ch then q else qs j

abbrev is_empty : List PacerFrame → Bool
is_empty [] = true
is_empty (f ∷ fs) = false

-- The frames in the queues of some channels.
abbrev pub queued : List ℕ → Queues → ℕ
queued [] qs = 0
queued (ch ∷ chs) qs = length (qs ch) + queued chs qs

-- Tokens, rate and cap are f64.
module _ (fl : Float) where
  open fl use {F, of_nat, lt, le, add, sub, mul, div, minimum}

  pub record Pacer : Type 0 where
    pub queues : Queues
    pub token_bytes : F
    pub rate_bps : F
    pub burst_cap_bytes : F

  pub burst_cap_for_rate : F → F
  burst_cap_for_rate rate = div (mul rate (of_nat burst_tolerance_ms)) (of_nat 8_000)

  pub new : F → Pacer
  new rate = record {
    queues = λ ch. [];
    token_bytes = of_nat 0;
    rate_bps = rate;
    burst_cap_bytes = burst_cap_for_rate rate;
  }

  pub set_rate : Pacer → F → Pacer
  set_rate p rate = record p {
    rate_bps = rate;
    burst_cap_bytes = burst_cap_for_rate rate;
    token_bytes = minimum p.token_bytes (burst_cap_for_rate rate);
  }

  pub advance : Pacer → ℕ → Pacer
  advance p elapsed_ns =
      let added = div (mul p.rate_bps (of_nat elapsed_ns)) (of_nat 8_000_000_000) in
      record p { token_bytes = minimum (add p.token_bytes added) p.burst_cap_bytes }

  -- `none` is the panic of an index beyond the array.
  pub enqueue : Pacer → PacerFrame → Option (Pacer × Bool)
  enqueue p f =
      if ltb max_frame_data_bytes (length f.payload)
      then some (p, false)
      else if ltb f.channel num_channels
      then some (
        record p { queues = set_queue p.queues f.channel (p.queues f.channel ++ (f ∷ [])) },
        true,
      )
      else none

  -- One channel of the scan, with its queue and the outcome of the channels behind it.
  dequeue_front :
      Pacer → ℕ → List PacerFrame → Pacer × Option PacerFrame → Pacer × Option PacerFrame
  dequeue_front p ch [] next = next
  dequeue_front p ch (f ∷ rest) next =
      if le (of_nat (length f.payload)) p.token_bytes
      then (
        record p {
          queues = set_queue p.queues ch rest;
          token_bytes = sub p.token_bytes (of_nat (length f.payload));
        },
        some f,
      )
      else next

  dequeue_scan : List ℕ → Pacer → Pacer × Option PacerFrame
  unfolding dequeue_front
  dequeue_scan [] p = (p, none)
  dequeue_scan (ch ∷ chs) p = dequeue_front p ch (p.queues ch) (dequeue_scan chs p)

  pub dequeue : Pacer → Pacer × Option PacerFrame
  unfolding dequeue_scan
  dequeue = dequeue_scan priority_order

  -- The variables of `drain_tick`.
  pub record Drain : Type 0 where
    pub queues : Queues
    pub token_bytes : F
    pub frames : List PacerFrame
    pub datagram_used : ℕ

  pub drop_front : Drain → ℕ → List PacerFrame → Drain
  drop_front d ch rest = record d { queues = set_queue d.queues ch rest }

  pub admit_front : Drain → ℕ → PacerFrame → List PacerFrame → Drain
  admit_front d ch f rest = record {
    queues = set_queue d.queues ch rest;
    token_bytes = sub d.token_bytes (of_nat (length f.payload));
    frames = d.frames ++ (f ∷ []);
    datagram_used = d.datagram_used + slot_of f;
  }

  -- One channel of a pass over the channels: its queue, and what the rest of the pass comes to.
  scan_front : Drain → ℕ → List PacerFrame → Option Drain → Option Drain
  scan_front d ch [] next = next
  scan_front d ch (f ∷ rest) next =
      if lt d.token_bytes (of_nat (length f.payload))
      then next
      else if ltb max_datagram_payload_bytes (slot_of f)
      then some (drop_front d ch rest)
      else if is_empty d.frames
      then some (admit_front d ch f rest)
      else if ltb max_datagram_payload_bytes (d.datagram_used + slot_of f)
      then next
      else some (admit_front d ch f rest)

  -- `some` restarts from the highest priority, `none` ends the loop.
  pub scan : List ℕ → Drain → Option Drain
  unfolding scan_front
  scan [] d = none
  scan (ch ∷ chs) d = scan_front d ch (d.queues ch) (scan chs d)

  -- `none` is no outcome of the code: the fuel ran out.
  pub drain_loop : ℕ → Drain → Option Drain
  drain_loop zero d = none
  drain_loop (suc fuel) d = elim (scan priority_order d) [
    | none ↦ some d
    | some d' ↦ drain_loop fuel d'
  ]

  pub total_queued_frames : Pacer → ℕ
  total_queued_frames p = queued priority_order p.queues

  finish : Pacer → Drain → Pacer × List PacerFrame
  finish p d = (record p { queues = d.queues; token_bytes = d.token_bytes }, d.frames)

  map_finish : Pacer → Option Drain → Option (Pacer × List PacerFrame)
  unfolding finish
  map_finish p none = none
  map_finish p (some d) = some (finish p d)

  -- The frames of the datagram; the code returns `None` in place of the empty list. Each restart takes
  -- a frame from a queue, so the frames queued are fuel enough.
  pub drain_tick : Pacer → Option (Pacer × List PacerFrame)
  unfolding drain_loop scan map_finish
  drain_tick p = map_finish p (
      drain_loop (suc (queued priority_order p.queues))
        (record { queues = p.queues; token_bytes = p.token_bytes; frames = []; datagram_used = 0 }))
