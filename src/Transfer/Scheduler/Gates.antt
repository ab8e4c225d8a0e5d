-- ===== src/Transfer/Scheduler/Gates.antt =====
-- core/xfer/src/scheduler.rs: what a tick does, on every branch.
use lowband.Prelude.{
  ℕ, ◌+◌, ◌≤◌, ◌<◌, ◌≡◌, ◌⊎◌, ◌≢◌, inl, inr, refl, sym, ◌∙◌, arith, true, false, List, [], ◌∷◌,
  ◌++◌, append_assoc, length, ltb, ◌==◌, Bool-cases,
}
use lowband.Transfer.Scheduler.{
  PacerDemand, XferFrame, data_bytes, frame_header_overhead, max_datagram_xfer_bytes, TickResult,
  send_aggregated, held_for_priority, held_for_headroom, nothing_queued, BulkTransferScheduler,
  Packing, pack, send, tick_front, tick, is_used,
}

abbrev pub slots : List XferFrame → ℕ
slots [] = 0
slots (f ∷ fs) = frame_header_overhead + length f.payload + slots fs

data_bytes-snoc :
    (fs : List XferFrame) (f : XferFrame)
    → data_bytes (fs ++ (f ∷ [])) ≡ data_bytes fs + length f.payload
data_bytes-snoc [] f = omega arith
data_bytes-snoc (g ∷ fs) f = omega (arith, data_bytes-snoc fs f)

slots-snoc :
    (fs : List XferFrame) (f : XferFrame)
    → slots (fs ++ (f ∷ [])) ≡ slots fs + frame_header_overhead + length f.payload
slots-snoc [] f = omega arith
slots-snoc (g ∷ fs) f = omega (arith, slots-snoc fs f)

-- The next frame waits: the datagram or the headroom has no room for it.
abbrev pub Waits : ℕ → List XferFrame → List XferFrame → Type 0
Waits headroom sent [] = Unit {0}
Waits headroom sent (f ∷ rest) =
    (max_datagram_xfer_bytes < slots sent + frame_header_overhead + length f.payload)
    ⊎ (headroom < data_bytes sent + length f.payload)

-- A datagram over the limit holds one frame alone.
abbrev pub Fits : List XferFrame → Type 0
Fits sent = (slots sent ≤ max_datagram_xfer_bytes) ⊎ (length sent ≡ 1)

pub record Packed (headroom : ℕ) (queue frames : List XferFrame) (p : Packing) : Type 0 where
  pub kept : frames ++ queue ≡ p.frames ++ p.left
  pub spent : p.headroom_used ≡ data_bytes p.frames
  pub afforded : data_bytes p.frames ≤ headroom
  pub fits : Fits p.frames
  pub waits : Waits headroom p.frames p.left
  pub used : is_used p.frames ≡ true

used-snoc : (fs : List XferFrame) (f : XferFrame) → is_used (fs ++ (f ∷ [])) ≡ true
used-snoc [] f = refl
used-snoc (g ∷ fs) f = refl

-- From a datagram that already holds a frame.
pack-Packed :
    (headroom : ℕ) (queue frames : List XferFrame) (du hu : ℕ)
    → is_used frames ≡ true
    → du ≡ slots frames
    → hu ≡ data_bytes frames
    → hu ≤ headroom
    → Fits frames
    → Packed headroom queue frames (pack headroom queue frames du hu)
unfolding pack
pack-Packed headroom [] frames du hu full d h room fits = record {
  kept = refl;
  spent = h;
  afforded = omega arith;
  fits = fits;
  waits = tt;
  used = full;
}
pack-Packed headroom (f ∷ queue) frames du hu full d h room fits =
    rw full
      (elim (Bool-cases
        (ltb max_datagram_xfer_bytes (du + (frame_header_overhead + length f.payload)))) [
          | inl over ↦ rw over (stop (inl (ground arith)))
          | inr fit ↦ rw fit (elim (Bool-cases (ltb headroom (hu + length f.payload))) [
            | inl broke ↦ rw broke (stop (inr (ground arith)))
            | inr paid ↦ rw paid (
                shift (
                  pack-Packed headroom queue (frames ++ (f ∷ []))
                    (du + (frame_header_overhead + length f.payload)) (hu + length f.payload)
                    (used-snoc frames f) (omega (arith, slots-snoc frames f))
                    (omega (arith, data_bytes-snoc frames f)) (ground arith)
                    (inl (ground (arith, slots-snoc frames f)))))
          ])
        ])
  where
    stop :
        Waits headroom frames (f ∷ queue)
        → Packed headroom
            (f ∷ queue)
            frames
            (record { frames = frames; left = f ∷ queue; headroom_used = hu })
    stop w = record {
      kept = refl;
      spent = h;
      afforded = omega arith;
      fits = fits;
      waits = w;
      used = full;
    }

    shift :
        {p : Packing}
        → Packed headroom queue (frames ++ (f ∷ [])) p
        → Packed headroom (f ∷ queue) frames p
    shift r = record {
      kept = sym (append_assoc frames (f ∷ []) queue) ∙ r.kept;
      spent = r.spent;
      afforded = r.afforded;
      fits = r.fits;
      waits = r.waits;
      used = r.used;
    }

-- The front frame needs more than the headroom.
abbrev pub FrontOver : ℕ → List XferFrame → Type 0
FrontOver headroom [] = ⊥
FrontOver headroom (f ∷ rest) = headroom < length f.payload

-- What sending `frames` makes of the scheduler.
pub record Sent (s s' : BulkTransferScheduler) (frames : List XferFrame) : Type 0 where
  pub some_frame : frames ≢ []
  pub kept : s.queue ≡ frames ++ s'.queue
  pub spent : s'.headroom_remaining + data_bytes frames ≡ s.headroom_remaining
  pub fits : Fits frames
  pub waits : Waits s.headroom_remaining frames s'.queue

used_not_empty : (fs : List XferFrame) → is_used fs ≡ true → fs ≡ [] → ⊥
used_not_empty [] h e = cc
used_not_empty (f ∷ fs) h e = cc

-- The four outcomes of a tick with their conditions.
pub data Outcome (s : BulkTransferScheduler) (demand : PacerDemand) (s' : BulkTransferScheduler)
    (r : TickResult) : Type 0 where
  by_priority :
      r ≡ held_for_priority
      → s' ≡ s
      → (0 < demand.voice_pending) ⊎ (0 < demand.input_pending)
      → Outcome s demand s' r
  by_headroom :
      r ≡ held_for_headroom
      → s' ≡ s
      → FrontOver s.headroom_remaining s.queue ⊎ (s.headroom_remaining ≡ 0)
      → Outcome s demand s' r
  nothing : r ≡ nothing_queued → s' ≡ s → s.queue ≡ [] → Outcome s demand s' r
  sent :
      (frames : List XferFrame)
      → r ≡ send_aggregated frames
      → demand.voice_pending ≡ 0
      → demand.input_pending ≡ 0
      → Sent s s' frames
      → Outcome s demand s' r

first_pack :
    (headroom : ℕ) (f : XferFrame) (queue : List XferFrame)
    → length f.payload ≤ headroom
    → Packed headroom (f ∷ queue) [] (pack headroom (f ∷ queue) [] 0 0)
unfolding pack
first_pack headroom f queue h =
    let paid : ltb headroom (0 + length f.payload) ≡ false = ground arith in
    rw paid (
      shift (
        pack-Packed headroom queue (f ∷ []) (0 + (frame_header_overhead + length f.payload))
          (0 + length f.payload) refl (omega arith) (omega arith) (omega arith) (inr refl)))
  where
    shift : {p : Packing} → Packed headroom queue (f ∷ []) p → Packed headroom (f ∷ queue) [] p
    shift r = record {
      kept = r.kept;
      spent = r.spent;
      afforded = r.afforded;
      fits = r.fits;
      waits = r.waits;
      used = r.used;
    }

front-Outcome :
    (s : BulkTransferScheduler) (demand : PacerDemand) (q : List XferFrame)
    → s.queue ≡ q
    → demand.voice_pending ≡ 0
    → demand.input_pending ≡ 0
    → Outcome s demand (tick_front s q).0 (tick_front s q).1
unfolding tick_front send
front-Outcome s demand [] e v i = nothing refl refl e
front-Outcome s demand (f ∷ rest) e v i =
    elim (Bool-cases (ltb s.headroom_remaining (length f.payload))) [
      | inl over ↦ rw over (by_headroom refl refl (inl (rw e (ground arith))))
      | inr enough ↦
          let p = first_pack s.headroom_remaining f rest (ground arith) in
          rw enough (
            sent (pack s.headroom_remaining (f ∷ rest) [] 0 0).frames refl v i (record {
              some_frame = λ none. used_not_empty _ p.used none;
              kept = e ∙ p.kept;
              spent = omega (arith, p.spent, p.afforded);
              fits = p.fits;
              waits = p.waits;
            }))
    ]

-- What a tick comes to. Voice or input pending holds everything. Else no headroom, or less than the
-- front frame needs, holds everything; an empty queue leaves nothing to send. Else a datagram leaves:
-- its frames are the front of the queue in order, at least one, their bytes are taken from the headroom
-- and do not exceed it, they fit one datagram unless there is one frame alone, and the next frame has no
-- room in the datagram or in the headroom.
pub tick-Outcome :
    (s : BulkTransferScheduler) (demand : PacerDemand)
    → Outcome s demand (tick s demand).0 (tick s demand).1
unfolding tick
tick-Outcome s demand = elim (Bool-cases (ltb 0 demand.voice_pending)) [
  | inl voice ↦ rw voice (by_priority refl refl (inl (ground arith)))
  | inr silent ↦ rw silent (elim (Bool-cases (ltb 0 demand.input_pending)) [
    | inl input ↦ rw input (by_priority refl refl (inr (ground arith)))
    | inr idle ↦ rw idle (elim (Bool-cases (s.headroom_remaining == 0)) [
      | inl spent ↦ rw spent (by_headroom refl refl (inr (ground arith)))
      | inr left ↦ rw left (front-Outcome s demand s.queue refl (ground arith) (ground arith))
    ])
  ])
]
