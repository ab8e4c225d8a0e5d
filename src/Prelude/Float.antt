-- ===== src/Prelude/Float.antt =====
-- The f64 of the program, which has no counterpart here: its type and the operations that the code
-- uses, as a record that the definitions take. A theorem that needs a law of them names it.
use Prim.Native.Nat.{ℕ, ◌+◌, ◌-◌, ◌*◌, ◌/◌, min}
use mathlib.Core.Bool.{Bool}
use lowband.Prelude.Tests.{ltb, leb}

pub record Float : Type 1 where
  pub F : Type 0
  pub of_nat : ℕ → F
  pub lt : F → F → Bool
  pub le : F → F → Bool
  pub add : F → F → F
  pub sub : F → F → F
  pub mul : F → F → F
  pub div : F → F → F
  pub minimum : F → F → F

-- The whole numbers in place of the floats, to evaluate the code with.
abbrev pub whole : Float
whole = record {
  F = ℕ;
  of_nat = λ n. n;
  lt = ltb;
  le = leb;
  add = ◌+◌;
  sub = ◌-◌;
  mul = ◌*◌;
  div = ◌/◌;
  minimum = min;
}
