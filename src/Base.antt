-- ===== src/Base.antt =====
-- The names that the other modules share: those of the libraries, passed on, the Boolean tests on
-- native numbers, fixed-width unsigned arithmetic, and lists indexed by native numbers.
pub mod Tests
pub mod Words
pub mod Lists
pub mod Slices
pub mod Bits
pub mod Counts
pub use Tests.*
pub use Words.*
pub use Lists.*
pub use Slices.*
pub use Bits.*
pub use Counts.*
pub use Prim.Native.Nat.{ℕ, zero, suc, ◌+◌, ◌-◌, ◌*◌, ◌/◌, ◌%◌, ◌^◌, ◌≤◌, ◌<◌, min}
pub use mathlib.Core.Path.{◌≡◌, refl, sym, ap, ap₂, ◌∙◌, fun_ext, subst}
pub use mathlib.Core.Logic.{◌≢◌, ◌↔◌, ◌⊎◌, inl, inr}
pub use mathlib.Core.Bool.{Bool, true, false, not, ◌&&◌, ◌||◌}
pub use mathlib.Core.Option.{Option, none, some, some-injective}
pub use mathlib.Core.List.{List, [], ◌∷◌, ◌++◌, map, append_assoc, append-nil}
pub use native.Mathlib.Omega.{arith}
