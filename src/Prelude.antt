-- ===== src/Prelude.antt =====
-- Names that every part shares: those of the libraries, passed on, Boolean tests and lists over the
-- native numbers, and signed numbers.
mod Tests
mod Lists
mod Bytes
pub mod Signed
pub mod Float
pub use Tests.*
pub use Lists.*
unfoldable pub use Bytes.{bytes_eq}
pub use Bytes.{bytes_eq→eq, bytes_eq_self, bytes_eq_iff}
pub use Prim.Native.Nat.{ℕ, zero, suc, ◌+◌, ◌-◌, ◌*◌, ◌/◌, ◌%◌, ◌^◌, ◌≤◌, ◌<◌, min, max}
pub use mathlib.Core.Path.{◌≡◌, refl, sym, ap, ◌∙◌}
pub use mathlib.Core.Logic.{◌≢◌, ◌↔◌, ◌⊎◌, inl, inr}
pub use mathlib.Core.Bool.{Bool, true, false, not, ◌&&◌, ◌||◌}
pub use mathlib.Core.Option.{Option, none, some}
pub use mathlib.Core.List.{List, [], ◌∷◌, ◌++◌, map, append-nil, append_assoc}
pub use native.Mathlib.Omega.{arith}
