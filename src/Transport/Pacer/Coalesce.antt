-- ===== src/Transport/Pacer/Coalesce.antt =====
-- core/lbtp/src/pacer.rs: what `drain_tick` puts into one datagram.
use lowband.Prelude.{
  ℕ, suc, ◌+◌, ◌≤◌, ◌<◌, ◌≡◌, ◌⊎◌, inl, inr, refl, arith, true, some, List, [], ◌∷◌, ◌++◌, length,
}
use Prim.Native.Nat.{zero-le}
use lowband.Prelude.Float.{Float}
use lowband.Transport.Pacer.{
  PacerFrame, slot_of, max_datagram_payload_bytes, Pacer, Drain, priority_order, queued, drain_tick,
  map_finish, finish,
}
use lowband.Transport.Pacer.Scan.{All, All-map, BlockedBy, Cleared}
use lowband.Transport.Pacer.Drained.{
  SubLowers, IsTidy, slots, Ordered, of_channel, Drawn, Kept, drain_loop-Finishes,
}

module _ (fl : Float) (law : SubLowers fl) where
  -- The front frame waits: the tokens do not cover it, or it has no room behind the frames sent.
  abbrev pub Waits : fl.F → List PacerFrame → List PacerFrame → Type 0
  Waits token sent [] = Unit {0}
  Waits token sent (f ∷ rest) =
      (fl.lt token (fl.of_nat (length f.payload)) ≡ true)
      ⊎ (max_datagram_payload_bytes < slots sent + slot_of f)

  Waits-BlockedBy :
      (d : Drain fl) (q : List PacerFrame)
      → d.datagram_used ≡ slots d.frames
      → BlockedBy fl d q
      → Waits d.token_bytes d.frames q
  Waits-BlockedBy d [] e b = tt
  Waits-BlockedBy d (f ∷ rest) e (inl broke) = inl broke
  Waits-BlockedBy d (f ∷ rest) e (inr (small, full, over)) = inr (omega arith)

  Cleared-zero : (d : Drain fl) (chs : List ℕ) → Cleared fl 0 d chs
  Cleared-zero d [] = tt
  Cleared-zero d (c ∷ chs) = (inl (zero-le), Cleared-zero d chs)

  -- What one tick does to the pacer `p`: the frames sent, and the pacer after.
  pub record Coalesced (p : Pacer fl) (p' : Pacer fl) (sent : List PacerFrame) : Type 0 where
    pub ordered : Ordered 0 sent
    pub fifo : (ch : ℕ) → p.queues ch ≡ of_channel ch sent ++ p'.queues ch
    pub within : slots sent ≤ max_datagram_payload_bytes
    pub drawn : Drawn fl p.token_bytes sent p'.token_bytes
    pub waits : All (λ ch. Waits p'.token_bytes sent (p'.queues ch)) priority_order

  -- Where taking tokens off never makes the rest cover a frame that was not covered, and on tidy queues, as
  -- `enqueue` makes them, a tick ends and sends frames that fit one datagram, by falling priority of their
  -- channels; the frames of each channel are the front of its queue, in order, and no frame is lost.
  -- Frame by frame, in the order sent, the tokens are not below its bytes, and these are taken off; the rest are
  -- the tokens of the pacer after. Every channel left with frames lacks the tokens or the room for its
  -- next one.
  pub drain_tick-Coalesced :
      (p : Pacer fl)
      → IsTidy p.queues
      → (p' : Pacer fl) × (sent : List PacerFrame) × (drain_tick fl p ≡ some (p', sent))
        × Coalesced p p' sent
  unfolding drain_tick map_finish finish
  drain_tick-Coalesced p tidy =
      let start : Drain fl = record {
        queues = p.queues;
        token_bytes = p.token_bytes;
        frames = [];
        datagram_used = 0;
      } in
      let kept : Kept fl law 0 start = record {
        tidy = tidy;
        counted = refl;
        within = omega arith;
        cleared = Cleared-zero start priority_order;
      } in
      let (d, e, h) =
        drain_loop-Finishes fl law (suc (queued priority_order p.queues)) 0 start kept
          (omega arith) in
      (
        record p { queues = d.queues; token_bytes = d.token_bytes },
        d.frames,
        rw e,
        record {
          ordered = rw (h.appended) (h.ordered);
          fifo = λ ch. rw (h.appended) (h.fifo ch);
          within = h.within;
          drawn = rw (h.appended) (h.drawn);
          waits = All-map priority_order (λ ch. Waits-BlockedBy d (d.queues ch) h.counted) h.stuck;
        },
      )
