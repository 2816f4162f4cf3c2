-- ===== src/Common.antt =====
-- Names that every module shares: the libraries' passed on, the tests and conditionals, lists
-- measured by native numbers, and results with errors.
mod Tests
mod Lists
mod Search
mod Bits
mod Xor
pub mod Action
pub mod Result
pub use Tests.*
pub use Lists.*
pub use Search.*
pub use Bits.*
pub use Xor.*
pub use Prim.Native.Nat.{
  ℕ, zero, suc, ◌+◌, ◌-◌, ◌*◌, ◌/◌, ◌%◌, ◌^◌, ◌≤◌, ◌<◌, min, bit_and, bit_or, bit_xor,
}
pub use mathlib.Core.Path.{◌≡◌, refl, sym, ap, subst, ◌∙◌}
pub use mathlib.Core.Logic.{◌≢◌, ◌↔◌, ◌⊎◌, inl, inr}
pub use mathlib.Core.Bool.{Bool, true, false, not, ◌&&◌, ◌||◌}
pub use mathlib.Core.Option.{Option, none, some, some-injective}
pub use mathlib.Core.List.{Memᴰ, List, [], ◌∷◌, ◌++◌, map, append-nil, append_assoc}
pub use native.Mathlib.Omega.{arith}
