-- ===== src/Transport/Seq.antt =====
-- core/lbtp/src/seq.rs: a 16-bit wire sequence number is expanded to the full 47-bit one.
pub mod Window
pub mod Bounds
mod Tests
use lowband.Prelude.{ℕ, ◌+◌, ◌-◌, ◌%◌, ◌^◌, leb, ltb, if◌then◌else◌}
use lowband.Prelude.Signed.{ℤ, pos, negsuc, ◌+ℤ◌}

abbrev pub wire_seq_bits : ℕ
wire_seq_bits = 16

abbrev pub seq_bits : ℕ
seq_bits = 47

abbrev pub seq_max : ℕ
seq_max = 2 ^ seq_bits - 1

pub record SeqExpander : Type 0 where
  pub next_expected : ℕ

pub new : SeqExpander
new = record { next_expected = 0 }

-- `wire_seq.wrapping_sub(low)`, a u16.
abbrev pub wrapping_sub16 : ℕ → ℕ → ℕ
wrapping_sub16 a b = (a + 2 ^ 16 - b) % 2 ^ 16

-- The cast of a u16 to i16.
abbrev pub as_i16 : ℕ → ℤ
as_i16 w = if ltb w (2 ^ 15) then pos w else negsuc (2 ^ 16 - w - 1)

-- `.clamp(0, SEQ_MAX as i64) as u64`
abbrev pub clamp_seq : ℤ → ℕ
clamp_seq (pos n) = if leb n seq_max then n else seq_max
clamp_seq (negsuc n) = 0

-- `next_expected & WIRE_MASK` is the remainder modulo 2 ^ 16.
abbrev pub delta_of : ℕ → ℕ → ℤ
delta_of next wire = as_i16 (wrapping_sub16 wire (next % 2 ^ wire_seq_bits))

pub expand : SeqExpander → ℕ → SeqExpander × ℕ
expand e wire =
    let full = clamp_seq (pos e.next_expected +ℤ delta_of e.next_expected wire) in
    (
      record { next_expected = if leb e.next_expected full then full + 1 else e.next_expected },
      full,
    )
