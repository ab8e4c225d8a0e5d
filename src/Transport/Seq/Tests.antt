-- ===== src/Transport/Seq/Tests.antt =====
-- core/lbtp/src/seq.rs: runs, and the theorems at concrete inputs.
use lowband.Prelude.{◌≡◌, refl, arith, [], ◌∷◌}
use lowband.Transport.Seq.{SeqExpander, new, expand}
use lowband.Transport.Seq.Window.{expand_all, expand-low_bits, expand_all-low_bits}

abbrev at_wrap : SeqExpander
at_wrap = record { next_expected = 65535 }

in_order : expand_all new (0 ∷ 1 ∷ 2 ∷ []) ≡ 0 ∷ 1 ∷ 2 ∷ []
unfolding expand_all expand new
in_order = refl

expand-low_bits_example : expand at_wrap 2 ≡ (record { next_expected = 65539 }, 65538)
expand-low_bits_example = expand-low_bits at_wrap 65538 (omega arith)

expand_all-low_bits_example : expand_all at_wrap (1 ∷ 65535 ∷ 3 ∷ []) ≡ 65537 ∷ 65535 ∷ 65539 ∷ []
expand_all-low_bits_example = expand_all-low_bits at_wrap (65537 ∷ 65535 ∷ 65539 ∷ []) (omega arith)
