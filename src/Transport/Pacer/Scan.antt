-- ===== src/Transport/Pacer/Scan.antt =====
-- core/lbtp/src/pacer.rs: one pass of `drain_tick` over the channels.
use lowband.Prelude.{
  ℕ, suc, ◌+◌, ◌≤◌, ◌<◌, ◌≡◌, ◌⊎◌, inl, inr, refl, arith, true, false, Option, none, some, List, [],
  ◌∷◌, length, ltb, ◌==◌, if◌then◌else◌, ◌≢◌, Bool-cases, ==_iff, ap, sym, max,
}
use lowband.Prelude.Float.{Float}
use lowband.Transport.Pacer.{
  PacerFrame, slot_of, Queues, set_queue, max_datagram_payload_bytes, Drain, drop_front,
  admit_front, scan, scan_front, is_empty, priority_order, queued,
}

module _ (fl : Float) where
  open fl use {F, of_nat, lt, sub}

  -- The front frame of the channel cannot leave: there is none, the tokens do not cover it, or it does
  -- not fit behind the frames of the datagram.
  abbrev pub BlockedBy : Drain fl → List PacerFrame → Type 0
  BlockedBy d [] = Unit {0}
  BlockedBy d (f ∷ rest) =
      (lt d.token_bytes (of_nat (length f.payload)) ≡ true)
      ⊎ ((slot_of f ≤ max_datagram_payload_bytes)
          × (is_empty d.frames ≡ false)
          × (max_datagram_payload_bytes < d.datagram_used + slot_of f))

-- The place of a channel in the priority order; channels that are not in it come last.
abbrev pub position : ℕ → List ℕ → ℕ
position ch [] = 0
position ch (c ∷ cs) = if ch == c then 0 else suc (position ch cs)

abbrev pub rank_of : ℕ → ℕ
rank_of ch = position ch priority_order

abbrev pub All {ℓ κ} : {A : Type ℓ} → (A → Type κ) → List A → Type κ
All P [] = Unit
All P (x ∷ xs) = P x × All P xs

pub All-map {ℓ κ μ} :
    {A : Type ℓ} {P : A → Type κ} {Q : A → Type μ} (xs : List A)
    → ((a : A) → P a → Q a)
    → All P xs
    → All Q xs
All-map [] f h = tt
All-map (x ∷ xs) f h = (f x h.0, All-map xs f h.1)

abbrev Increasing : List ℕ → Type 0
Increasing [] = Unit {0}
Increasing (c ∷ cs) = All (λ c'. rank_of c < rank_of c') cs × Increasing cs

pub priority_order-Increasing : Increasing priority_order
priority_order-Increasing = omega arith

module _ (fl : Float) where
  open fl use {F, of_nat, lt, sub}

  abbrev pub Blocked : Drain fl → ℕ → Type 0
  Blocked d c = BlockedBy fl d (d.queues c)

  -- Every channel of a higher priority than `k` is blocked.
  abbrev pub Cleared : ℕ → Drain fl → List ℕ → Type 0
  Cleared k d = All (λ c. (k ≤ rank_of c) ⊎ Blocked d c)

  -- A pass that took the front frame of a channel of rank `k` or later.
  pub record Taken (k : ℕ) (d : Drain fl) (r : Option (Drain fl)) (chs : List ℕ) : Type 0 where
    pub channel : ℕ
    pub front : PacerFrame
    pub rest : List PacerFrame
    pub queue : d.queues channel ≡ front ∷ rest
    pub paid : lt d.token_bytes (of_nat (length front.payload)) ≡ false
    pub outcome :
        ((r ≡ some (drop_front fl d channel rest)) × (max_datagram_payload_bytes < slot_of front))
        ⊎ ((r ≡ some (admit_front fl d channel front rest))
            × (slot_of front ≤ max_datagram_payload_bytes)
            × ((is_empty d.frames ≡ true)
                ⊎ (d.datagram_used + slot_of front ≤ max_datagram_payload_bytes)))
    pub above : k ≤ rank_of channel
    pub cleared : Cleared (rank_of channel) d chs
    pub shorter : queued chs (set_queue d.queues channel rest) + 1 ≡ queued chs d.queues

  abbrev pub Passed : ℕ → Drain fl → Option (Drain fl) → List ℕ → Type 0
  Passed k d r chs = ((r ≡ none) × All (Blocked d) chs) ⊎ Taken k d r chs

-- A write to one queue leaves those of later channels alone.
set_queue_other :
    (qs : Queues) (ch c : ℕ) (q : List PacerFrame)
    → rank_of ch ≢ rank_of c
    → set_queue qs ch q c ≡ qs c
set_queue_other qs ch c q h = elim (Bool-cases (c == ch)) [
  | inl same ↦ absurd (h (ap rank_of (sym ((==_iff c ch).0 same))))
  | inr other ↦ rw other
]

pub set_queue_self : (qs : Queues) (ch : ℕ) (q : List PacerFrame) → set_queue qs ch q ch ≡ q
set_queue_self qs ch q = rw ((==_iff ch ch).1 refl)

queued-set_queue :
    (qs : Queues) (ch : ℕ) (q : List PacerFrame) (chs : List ℕ)
    → All (λ c. rank_of ch < rank_of c) chs
    → queued chs (set_queue qs ch q) ≡ queued chs qs
queued-set_queue qs ch q [] h = refl
queued-set_queue qs ch q (c ∷ chs) (later, h) = omega (
  arith,
  ap length (set_queue_other qs ch c q (λ e. omega (arith, e))),
  queued-set_queue qs ch q chs h,
)

module _ (fl : Float) where
  open fl use {F, of_nat, lt, sub}

  Cleared-raise :
      (k : ℕ) (d : Drain fl) (ch : ℕ) (chs : List ℕ)
      → All (λ c. rank_of ch < rank_of c) chs
      → Cleared fl k d chs
      → Cleared fl (max k (suc (rank_of ch))) d chs
  Cleared-raise k d ch [] h c = tt
  Cleared-raise k d ch (x ∷ chs) (later, h) (inl above, c) =
      (inl (omega arith), Cleared-raise k d ch chs h c)
  Cleared-raise k d ch (x ∷ chs) (later, h) (inr b, c) = (inr b, Cleared-raise k d ch chs h c)

  -- A blocked channel in front of a pass.
  extend :
      (k : ℕ) (d : Drain fl) (r : Option (Drain fl)) (ch : ℕ) (chs : List ℕ)
      → Blocked fl d ch
      → Passed fl (max k (suc (rank_of ch))) d r chs
      → Passed fl k d r (ch ∷ chs)
  extend k d r ch chs b (inl (e, all)) = inl (e, (b, all))
  extend k d r ch chs b (inr t) = inr (record {
    channel = t.channel;
    front = t.front;
    rest = t.rest;
    queue = t.queue;
    paid = t.paid;
    outcome = t.outcome;
    above = omega (arith, t.above);
    cleared = (inr b, t.cleared);
    shorter = omega (
      arith,
      t.shorter,
      ap length (set_queue_other d.queues t.channel ch t.rest (λ e. omega (arith, e, t.above))),
    );
  })

  unblocked :
      (k : ℕ) (d : Drain fl) (ch : ℕ) (f : PacerFrame) (rest : List PacerFrame)
      → d.queues ch ≡ f ∷ rest
      → (k ≤ rank_of ch) ⊎ Blocked fl d ch
      → lt d.token_bytes (of_nat (length f.payload)) ≡ false
      → (max_datagram_payload_bytes < slot_of f)
        ⊎ ((is_empty d.frames ≡ true) ⊎ (d.datagram_used + slot_of f ≤ max_datagram_payload_bytes))
      → k ≤ rank_of ch
  unblocked k d ch f rest e (inl above) paid fits = above
  unblocked k d ch f rest e (inr b) paid fits = elim (rw e at b) [
    | inl broke ↦ cc
    | inr (small, full, over) ↦ elim fits [
      | inl large ↦ absurd (omega arith)
      | inr (inl bare) ↦ cc
      | inr (inr room) ↦ absurd (omega arith)
    ]
  ]

  Cleared-later :
      (d : Drain fl) (ch : ℕ) (chs : List ℕ)
      → All (λ c. rank_of ch < rank_of c) chs
      → Cleared fl (rank_of ch) d chs
  Cleared-later d ch chs = All-map chs (λ c later. inl (omega arith))

  front-Passed :
      (k : ℕ) (d : Drain fl) (ch : ℕ) (chs : List ℕ) (q : List PacerFrame)
      (next : Option (Drain fl))
      → d.queues ch ≡ q
      → (k ≤ rank_of ch) ⊎ Blocked fl d ch
      → All (λ c. rank_of ch < rank_of c) chs
      → Passed fl (max k (suc (rank_of ch))) d next chs
      → Passed fl k d (scan_front fl d ch q next) (ch ∷ chs)
  unfolding scan_front
  front-Passed k d ch chs [] next e c later passed = extend k d next ch chs (rw e tt) passed
  front-Passed k d ch chs (f ∷ rest) next e c later passed =
      elim (Bool-cases (lt d.token_bytes (of_nat (length f.payload)))) [
        | inl broke ↦ rw broke (extend k d next ch chs (rw e (inl broke)) passed)
        | inr paid ↦ rw paid (elim (Bool-cases (ltb max_datagram_payload_bytes (slot_of f))) [
          | inl large ↦ rw large (inr (take paid (inl (refl, ground arith)) (inl (ground arith))))
          | inr small ↦ rw small (elim (Bool-cases (is_empty d.frames)) [
            | inl bare ↦
                rw bare (inr (take paid (inr (refl, ground arith, inl bare)) (inr (inl bare))))
            | inr full ↦
                rw full
                  (elim (Bool-cases
                    (ltb max_datagram_payload_bytes (d.datagram_used + slot_of f))) [
                      | inl over ↦ rw over (
                          extend k d next ch chs (rw e (inr (ground arith, full, ground arith)))
                            passed)
                      | inr room ↦ rw room (
                          inr (
                            take paid (inr (refl, ground arith, inr (ground arith)))
                              (inr (inr (ground arith)))))
                    ])
          ])
        ])
      ]
    where
      take :
          {r : Option (Drain fl)}
          → lt d.token_bytes (of_nat (length f.payload)) ≡ false
          → ((r ≡ some (drop_front fl d ch rest)) × (max_datagram_payload_bytes < slot_of f))
            ⊎ ((r ≡ some (admit_front fl d ch f rest))
                × (slot_of f ≤ max_datagram_payload_bytes)
                × ((is_empty d.frames ≡ true)
                    ⊎ (d.datagram_used + slot_of f ≤ max_datagram_payload_bytes)))
          → (max_datagram_payload_bytes < slot_of f)
            ⊎ ((is_empty d.frames ≡ true)
                ⊎ (d.datagram_used + slot_of f ≤ max_datagram_payload_bytes))
          → Taken fl k d r (ch ∷ chs)
      take paid outcome fits = record {
        channel = ch;
        front = f;
        rest = rest;
        queue = e;
        paid = paid;
        outcome = outcome;
        above = unblocked k d ch f rest e c paid fits;
        cleared = (inl (omega arith), Cleared-later d ch chs later);
        shorter = omega (
          arith,
          ap length e,
          ap length (set_queue_self d.queues ch rest),
          queued-set_queue d.queues ch rest chs later,
        );
      }

  -- A pass over channels in the order of their ranks takes the front frame of the first channel that
  -- is not blocked, or finds them all blocked.
  pub scan-Passed :
      (k : ℕ) (d : Drain fl) (chs : List ℕ)
      → Increasing chs
      → Cleared fl k d chs
      → Passed fl k d (scan fl chs d) chs
  unfolding scan
  scan-Passed k d [] inc c = inl (refl, tt)
  scan-Passed k d (ch ∷ chs) (later, inc) (c, cs) =
      front-Passed k d ch chs (d.queues ch) (scan fl chs d) refl c later
        (scan-Passed (max k (suc (rank_of ch))) d chs inc (Cleared-raise k d ch chs later cs))
