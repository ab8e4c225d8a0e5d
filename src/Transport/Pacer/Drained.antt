-- ===== src/Transport/Pacer/Drained.antt =====
-- core/lbtp/src/pacer.rs: the loop of `drain_tick`, frame by frame.
use lowband.Prelude.{
  ℕ, zero, suc, ◌+◌, ◌≤◌, ◌<◌, ◌≡◌, ◌⊎◌, inl, inr, refl, sym, ap, ◌∙◌, arith, true, false, some,
  List, [], ◌∷◌, ◌++◌, append-nil, append_assoc, length, ◌==◌, ==_iff, if◌then◌else◌, Bool-cases,
}
use native.Mathlib.Nat.{le_of_eq}
use lowband.Prelude.Float.{Float}
use lowband.Transport.Pacer.{
  PacerFrame, slot_of, Queues, set_queue, max_datagram_payload_bytes, Drain, admit_front, is_empty,
  priority_order, queued, drain_loop,
}
use lowband.Transport.Pacer.Scan.{
  rank_of, All, All-map, Blocked, BlockedBy, Cleared, scan-Passed, priority_order-Increasing,
}

-- What IEEE arithmetic promises of `t - m` for a whole number `m`: it is not above `t`.
abbrev pub SubLowers : Float → Type 0
SubLowers fl =
    (t : fl.F) (m n : ℕ)
    → fl.lt t (fl.of_nat n) ≡ true
    → fl.lt (fl.sub t (fl.of_nat m)) (fl.of_nat n) ≡ true

-- A frame in the queue of its channel, that a datagram can hold.
abbrev pub IsProper : ℕ → PacerFrame → Type 0
IsProper ch f = (f.channel ≡ ch) × (slot_of f ≤ max_datagram_payload_bytes)

abbrev pub IsTidy : Queues → Type 0
IsTidy qs = (ch : ℕ) → All (IsProper ch) (qs ch)

abbrev pub slots : List PacerFrame → ℕ
slots [] = 0
slots (f ∷ fs) = slot_of f + slots fs

-- The ranks of the channels do not fall along the frames, and start at `k` or later.
abbrev pub Ordered : ℕ → List PacerFrame → Type 0
Ordered k [] = Unit {0}
Ordered k (f ∷ fs) = (k ≤ rank_of f.channel) × Ordered (rank_of f.channel) fs

abbrev pub of_channel : ℕ → List PacerFrame → List PacerFrame
of_channel ch [] = []
of_channel ch (f ∷ fs) = if ch == f.channel then f ∷ of_channel ch fs else of_channel ch fs

slots-append :
    (fs : List PacerFrame) (f : PacerFrame) → slots (fs ++ (f ∷ [])) ≡ slots fs + slot_of f
slots-append [] f = omega arith
slots-append (g ∷ fs) f = omega (arith, slots-append fs f)

not_empty-append : (fs : List PacerFrame) (f : PacerFrame) → is_empty (fs ++ (f ∷ [])) ≡ false
not_empty-append [] f = refl
not_empty-append (g ∷ fs) f = refl

-- Taking the front frame of a queue keeps the queues tidy.
fits_within :
    (fs : List PacerFrame) (f : PacerFrame) (used : ℕ)
    → used ≡ slots fs
    → slot_of f ≤ max_datagram_payload_bytes
    → (is_empty fs ≡ true) ⊎ (used + slot_of f ≤ max_datagram_payload_bytes)
    → slots (fs ++ (f ∷ [])) ≤ max_datagram_payload_bytes
fits_within [] f used e small fits = omega arith
fits_within (g ∷ fs) f used e small (inl bare) = cc
fits_within (g ∷ fs) f used e small (inr room) = omega (arith, slots-append fs f)

set_queue-IsTidy :
    (qs : Queues) (ch : ℕ) (f : PacerFrame) (rest : List PacerFrame)
    → IsTidy qs
    → qs ch ≡ f ∷ rest
    → IsTidy (set_queue qs ch rest)
set_queue-IsTidy qs ch f rest tidy e c = elim (Bool-cases (c == ch)) [
  | inl same ↦ rw same (
      let tail : All (IsProper ch) (f ∷ rest) = rw e at (tidy ch) in
      rw ((==_iff c ch).0 same) (tail.1))
  | inr other ↦ rw other (tidy c)
]

-- From the tokens `t` to the tokens `t'`: in front of each frame they are not below its bytes, which are then
-- taken off.
abbrev pub Drawn : (fl : Float) → fl.F → List PacerFrame → fl.F → Type 0
Drawn fl t [] t' = t' ≡ t
Drawn fl t (f ∷ fs) t' =
    (fl.lt t (fl.of_nat (length f.payload)) ≡ false)
    × Drawn fl (fl.sub t (fl.of_nat (length f.payload))) fs t'

-- What the loop has of a datagram: the frames of `added`, at ranks from `k` on, left the queues' fronts,
-- and what is left is blocked.
pub record Drained (fl : Float) (k : ℕ) (d d' : Drain fl) : Type 0 where
  pub added : List PacerFrame
  pub appended : d'.frames ≡ d.frames ++ added
  pub drawn : Drawn fl d.token_bytes added d'.token_bytes
  pub ordered : Ordered k added
  pub fifo : (ch : ℕ) → d.queues ch ≡ of_channel ch added ++ d'.queues ch
  pub within : slots d'.frames ≤ max_datagram_payload_bytes
  pub counted : d'.datagram_used ≡ slots d'.frames
  pub stuck : All (Blocked fl d') priority_order

module _ (fl : Float) (law : SubLowers fl) where
  BlockedBy-admit :
      (d : Drain fl) (ch : ℕ) (f : PacerFrame) (rest q : List PacerFrame)
      → BlockedBy fl d q
      → BlockedBy fl (admit_front fl d ch f rest) q
  unfolding admit_front
  BlockedBy-admit d ch f rest [] b = tt
  BlockedBy-admit d ch f rest (g ∷ gs) (inl broke) =
      inl (law d.token_bytes (length f.payload) (length g.payload) broke)
  BlockedBy-admit d ch f rest (g ∷ gs) (inr (small, full, over)) =
      inr (small, not_empty-append d.frames f, omega arith)

  Blocked-admit :
      (d : Drain fl) (ch : ℕ) (f : PacerFrame) (rest : List PacerFrame) (c : ℕ)
      → (rank_of ch ≤ rank_of c) ⊎ Blocked fl d c
      → (rank_of ch ≤ rank_of c) ⊎ Blocked fl (admit_front fl d ch f rest) c
  Blocked-admit d ch f rest c (inl later) = inl later
  Blocked-admit d ch f rest c (inr b) = elim (Bool-cases (c == ch)) [
    | inl same ↦ inl (le_of_eq (ap rank_of (sym ((==_iff c ch).0 same))))
    | inr other ↦ inr (unfold admit_front in rw other (BlockedBy-admit d ch f rest (d.queues c) b))
  ]

  -- The facts that the loop keeps.
  pub record Kept (k : ℕ) (d : Drain fl) : Type 0 where
    pub tidy : IsTidy d.queues
    pub counted : d.datagram_used ≡ slots d.frames
    pub within : slots d.frames ≤ max_datagram_payload_bytes
    pub cleared : Cleared fl k d priority_order

  admit-Kept :
      (k : ℕ) (d : Drain fl) (ch : ℕ) (f : PacerFrame) (rest : List PacerFrame)
      → Kept k d
      → d.queues ch ≡ f ∷ rest
      → slot_of f ≤ max_datagram_payload_bytes
      → (is_empty d.frames ≡ true) ⊎ (d.datagram_used + slot_of f ≤ max_datagram_payload_bytes)
      → Cleared fl (rank_of ch) d priority_order
      → Kept (rank_of ch) (admit_front fl d ch f rest)
  admit-Kept k d ch f rest h e small fits c = record {
    tidy = unfold admit_front in set_queue-IsTidy d.queues ch f rest h.tidy e;
    counted = unfold admit_front in omega (arith, slots-append d.frames f, h.counted);
    within = unfold admit_front in fits_within d.frames f d.datagram_used h.counted small fits;
    cleared = All-map priority_order (Blocked-admit d ch f rest) c;
  }

  -- The rest of the loop, behind one admitted frame.
  Drained-cons :
      (k : ℕ) (d : Drain fl) (ch : ℕ) (f : PacerFrame) (rest : List PacerFrame) (d' : Drain fl)
      → d.queues ch ≡ f ∷ rest
      → f.channel ≡ ch
      → fl.lt d.token_bytes (fl.of_nat (length f.payload)) ≡ false
      → k ≤ rank_of ch
      → Drained fl (rank_of ch) (admit_front fl d ch f rest) d'
      → Drained fl k d d'
  unfolding admit_front
  Drained-cons k d ch f rest d' e own paid above h = record {
    added = f ∷ h.added;
    appended = h.appended ∙ append_assoc d.frames (f ∷ []) h.added;
    drawn = (paid, h.drawn);
    ordered = rw own (above, h.ordered);
    fifo = λ c. front_of c;
    within = h.within;
    counted = h.counted;
    stuck = h.stuck;
  }
    where
      front_of : (c : ℕ) → d.queues c ≡ of_channel c (f ∷ h.added) ++ d'.queues c
      front_of c = elim (Bool-cases (c == ch)) [
        | inl same ↦
            simp (own, same)
              (ap d.queues ((==_iff c ch).0 same) ∙ e ∙ ap (λ l. f ∷ l) (rw same at (h.fifo c)))
        | inr other ↦ rw (own, other) (rw other at (h.fifo c))
      ]

  abbrev pub Finishes : ℕ → ℕ → Drain fl → Type 0
  Finishes fuel k d = (d' : Drain fl) × (drain_loop fl fuel d ≡ some d') × Drained fl k d d'

  IsProper-front :
      (d : Drain fl) (ch : ℕ) (f : PacerFrame) (rest : List PacerFrame)
      → IsTidy d.queues
      → d.queues ch ≡ f ∷ rest
      → IsProper ch f
  IsProper-front d ch f rest tidy e =
      let all : All (IsProper ch) (f ∷ rest) = rw e at (tidy ch) in all.0

  -- With more fuel than frames queued the loop ends.
  pub drain_loop-Finishes :
      (fuel k : ℕ) (d : Drain fl)
      → Kept k d
      → queued priority_order d.queues < fuel
      → Finishes fuel k d
  unfolding drain_loop
  drain_loop-Finishes zero k d h enough = absurd (omega arith)
  drain_loop-Finishes (suc fuel) k d h enough =
      elim (scan-Passed fl k d priority_order priority_order-Increasing h.cleared) [
        | inl (e, blocked) ↦ (
          d,
          rw (e, drain_loop),
          record {
            added = [];
            appended = sym (append-nil d.frames);
            drawn = refl;
            ordered = tt;
            fifo = λ ch. refl;
            within = h.within;
            counted = h.counted;
            stuck = blocked;
          },
        )
        | inr t ↦
            let (own, small) = IsProper-front d t.channel t.front t.rest h.tidy t.queue in
            elim t.outcome [
              | inl (e, large) ↦ absurd (omega arith)
              | inr (e, _, fits) ↦
                  let next : Finishes fuel (rank_of t.channel)
                      (admit_front fl d t.channel t.front t.rest) =
                    drain_loop-Finishes fuel (rank_of t.channel)
                      (admit_front fl d t.channel t.front t.rest)
                      (admit-Kept k d t.channel t.front t.rest h t.queue small fits t.cleared)
                      (unfold admit_front in omega (arith, t.shorter)) in
                  (
                    next.0,
                    rw (e, drain_loop) (next.1),
                    Drained-cons k d t.channel t.front t.rest (next.0) t.queue own t.paid t.above
                        (next.2),
                  )
            ]
      ]
