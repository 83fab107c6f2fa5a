-- ===== src/Base.antt =====
-- The names that the other modules share: the libraries', passed on, Boolean tests, equality as an
-- interface, lists counted by the native numbers, and exceptions as `Option`.
mod Tests
mod Lists
mod Eq
pub use Tests.*
pub use Lists.*
pub use Eq.{
  Equality, ◌==◌, nat_eq, string_eq, same, is_value, same_iff, bool_eq, option_eq, includes,
  has_unique, set_from,
}
pub use Prim.Native.Nat.{ℕ, zero, suc, ◌+◌, ◌-◌, ◌*◌, ◌/◌, ◌%◌, ◌^◌, ◌≤◌, ◌<◌}
pub use Prim.Native.String.{String, ◌++◌ as ◌<>◌}
pub use mathlib.Core.Path.{◌≡◌, refl, sym, ap, ◌∙◌, subst}
pub use mathlib.Core.Logic.{◌≢◌, ◌↔◌, ◌⊎◌, inl, inr}
pub use mathlib.Core.Bool.{Bool, true, false, not, xor, ◌&&◌, ◌||◌}
pub use mathlib.Core.Option.{Option, none, some}
pub use mathlib.Core.List.{List, [], ◌∷◌, ◌++◌, map, append-nil, append_assoc}
pub use native.Mathlib.Omega.{arith}
