-- ===== src/Transport/Seq/Bounds.antt =====
-- core/lbtp/src/seq.rs: the ranges that `expand` keeps, and its behaviour outside the window.
use lowband.Prelude.{ℕ, ◌+◌, ◌%◌, ◌^◌, ◌≤◌, ◌<◌, ◌≡◌, ◌≢◌, arith}
use lowband.Transport.Seq.{SeqExpander, seq_max, expand}

-- On any wire number: the result fits 47 bits, the expected number never falls and stays at most
-- 2 ^ 47, and it lies beyond the result.
expand_bounds :
    (e : SeqExpander) (wire : ℕ)
    → e.next_expected ≤ 2 ^ 47
    → ((expand e wire).1 ≤ seq_max)
      × (e.next_expected ≤ (expand e wire).0.next_expected)
      × ((expand e wire).0.next_expected ≤ 2 ^ 47)
      × ((expand e wire).1 < (expand e wire).0.next_expected)
unfolding expand
expand_bounds e wire h = ground arith

-- Near the start of a session, a wire number more than 2 ^ 15 ahead of the expected one counts as old
-- and is clamped: the result is 0, whose low 16 bits are not the wire number.
expand_clamped :
    (e : SeqExpander) (wire : ℕ)
    → wire < 2 ^ 16
    → e.next_expected + 2 ^ 15 ≤ wire
    → ((expand e wire).1 ≡ 0) × ((expand e wire).1 % 2 ^ 16 ≢ wire)
unfolding expand
expand_clamped e wire hw h = ground arith

-- At the end of the space every in-order wire number is expanded to the last number once more.
expand_exhausted :
    (e : SeqExpander) (wire : ℕ)
    → e.next_expected ≡ 2 ^ 47
    → wire < 2 ^ 15
    → (expand e wire).1 ≡ seq_max
unfolding expand
expand_exhausted e wire h hw = ground arith
