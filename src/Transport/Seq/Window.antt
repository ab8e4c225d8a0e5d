-- ===== src/Transport/Seq/Window.antt =====
-- core/lbtp/src/seq.rs: what `expand` reconstructs, one packet and a stream of packets.
use lowband.Prelude.{ℕ, ◌+◌, ◌%◌, ◌^◌, ◌≤◌, ◌<◌, ◌≡◌, max, arith, List, [], ◌∷◌, map, ap}
use lowband.Transport.Seq.{SeqExpander, seq_max, expand}

-- Either side of the expected number, 2 ^ 15 packets.
pub record InWindow (next full : ℕ) : Type 0 where
  pub not_old : next ≤ full + 2 ^ 15
  pub not_far : full < next + 2 ^ 15
  pub in_space : full ≤ seq_max

-- A packet whose full number lies in the window and in the 47-bit space is expanded from its low 16
-- bits to that number, and the expander then expects the number behind the highest seen.
pub expand-low_bits :
    (e : SeqExpander) (full : ℕ)
    → InWindow e.next_expected full
    → expand e (full % 2 ^ 16) ≡ (record { next_expected = max e.next_expected (full + 1) }, full)
unfolding expand
expand-low_bits e full w = ground arith

-- The expander over a stream of wire numbers, oldest first, with the numbers it returns.
unfoldable pub expand_all : SeqExpander → List ℕ → List ℕ
expand_all e [] = []
expand_all e (w ∷ ws) = (expand e w).1 ∷ expand_all (expand e w).0 ws

-- Every packet of a stream is in the window of the highest number before it.
abbrev pub AllInWindow : ℕ → List ℕ → Type 0
AllInWindow next [] = Unit {0}
AllInWindow next (full ∷ rest) = InWindow next full × AllInWindow (max next (full + 1)) rest

-- A stream that is reordered and loses packets, but in which each packet lies in the window of the
-- highest number before it, is expanded from the low 16 bits to exactly the numbers that were sent.
pub expand_all-low_bits :
    (e : SeqExpander) (fulls : List ℕ)
    → AllInWindow e.next_expected fulls
    → expand_all e (map (λ full. full % 2 ^ 16) fulls) ≡ fulls
unfolding expand_all
expand_all-low_bits e [] w = λ i. []
expand_all-low_bits e (full ∷ rest) (w, ws) = rw (expand-low_bits e full w) (
    ap (λ l. full ∷ l)
      (expand_all-low_bits (record { next_expected = max e.next_expected (full + 1) }) rest ws))
