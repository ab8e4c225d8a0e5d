-- ===== src/Transport/Pacer/Dequeue.antt =====
-- core/lbtp/src/pacer.rs: the frame that `dequeue` returns.
use lowband.Prelude.{
  ℕ, ◌≡◌, refl, ap, true, false, Option, none, some, List, [], ◌∷◌, ◌++◌, length, Bool-cases, inl,
  inr, ◌⊎◌,
}
use lowband.Prelude.Float.{Float}
use lowband.Transport.Pacer.{
  PacerFrame, set_queue, Pacer, priority_order, dequeue_scan, dequeue_front, dequeue,
}
use lowband.Transport.Pacer.Scan.{All}

module _ (fl : Float) where
  open fl use {of_nat, le, sub}

  -- A queue is empty, or the tokens do not cover its front frame.
  abbrev pub Unpaid : Pacer fl → List PacerFrame → Type 0
  Unpaid p [] = Unit {0}
  Unpaid p (f ∷ rest) = le (of_nat (length f.payload)) p.token_bytes ≡ false

  -- The front frame of the first channel of `order` that the tokens cover.
  pub record Dequeued (p : Pacer fl) (order : List ℕ) (r : Pacer fl × Option PacerFrame)
      : Type 0 where
    pub before : List ℕ
    pub channel : ℕ
    pub after : List ℕ
    pub frame : PacerFrame
    pub rest : List PacerFrame
    pub splits : order ≡ before ++ (channel ∷ after)
    pub skipped : All (λ ch. Unpaid p (p.queues ch)) before
    pub queue : p.queues channel ≡ frame ∷ rest
    pub paid : le (of_nat (length frame.payload)) p.token_bytes ≡ true
    pub result : r ≡ (
      record p {
        queues = set_queue p.queues channel rest;
        token_bytes = sub p.token_bytes (of_nat (length frame.payload));
      },
      some frame,
    )

  abbrev pub Choice : Pacer fl → List ℕ → Pacer fl × Option PacerFrame → Type 0
  Choice p order r =
      ((r ≡ (p, none)) × All (λ ch. Unpaid p (p.queues ch)) order) ⊎ Dequeued p order r

  skip :
      (p : Pacer fl) (ch : ℕ) (chs : List ℕ) (r : Pacer fl × Option PacerFrame)
      → Unpaid p (p.queues ch)
      → Choice p chs r
      → Choice p (ch ∷ chs) r
  skip p ch chs r u (inl (e, all)) = inl (e, (u, all))
  skip p ch chs r u (inr t) = inr (record {
    before = ch ∷ t.before;
    channel = t.channel;
    after = t.after;
    frame = t.frame;
    rest = t.rest;
    splits = ap (λ l. ch ∷ l) t.splits;
    skipped = (u, t.skipped);
    queue = t.queue;
    paid = t.paid;
    result = t.result;
  })

  front-Choice :
      (p : Pacer fl) (ch : ℕ) (chs : List ℕ) (q : List PacerFrame)
      (next : Pacer fl × Option PacerFrame)
      → p.queues ch ≡ q
      → Choice p chs next
      → Choice p (ch ∷ chs) (dequeue_front fl p ch q next)
  unfolding dequeue_front
  front-Choice p ch chs [] next e c = skip p ch chs next (rw e tt) c
  front-Choice p ch chs (f ∷ rest) next e c =
      elim (Bool-cases (le (of_nat (length f.payload)) p.token_bytes)) [
        | inl paid ↦ rw paid (
            inr (record {
              before = [];
              channel = ch;
              after = chs;
              frame = f;
              rest = rest;
              splits = refl;
              skipped = tt;
              queue = e;
              paid = paid;
              result = refl;
            }))
        | inr broke ↦ rw broke (skip p ch chs next (rw e broke) c)
      ]

  scan-Choice : (p : Pacer fl) (chs : List ℕ) → Choice p chs (dequeue_scan fl chs p)
  unfolding dequeue_scan
  scan-Choice p [] = inl (refl, tt)
  scan-Choice p (ch ∷ chs) =
      front-Choice p ch chs (p.queues ch) (dequeue_scan fl chs p) refl (scan-Choice p chs)

  -- `dequeue` returns the front frame of the first channel in priority order whose front frame the tokens
  -- cover, takes it from its queue and its bytes from the tokens; it returns nothing, and changes nothing,
  -- exactly if no channel has such a frame.
  pub dequeue-Choice : (p : Pacer fl) → Choice p priority_order (dequeue fl p)
  unfolding dequeue
  dequeue-Choice p = scan-Choice p priority_order
