-- ===== src/Common.antt =====
-- The names that the other modules share: the libraries', passed on, and those of three children.
pub mod Tests
pub mod Keys
pub mod Lists
pub use Tests.{ltb, leb, nat_beq, nat_beq_iff, if◌then◌else◌, Bool-cases, Option-cases}
pub use Keys.{Key, ◌==◌, number_key, text_key, pair_key}
pub use Lists.{
  length, take, drop, length-append, take-append-drop, length-drop, length-take, drop-append, mem,
  count, count-append, count-remove_first, mem-count,
}
unfoldable pub use Lists.{remove_first}
pub use Prim.Native.Nat.{ℕ, zero, suc, ◌+◌, ◌-◌, ◌*◌, ◌/◌, ◌%◌, ◌^◌, ◌≤◌, ◌<◌, min, max}
pub use mathlib.Core.Path.{◌≡◌, refl, sym, ap, ◌∙◌, subst}
pub use mathlib.Core.Logic.{◌≢◌, ◌↔◌, ◌⊎◌, inl, inr}
pub use mathlib.Core.Bool.{Bool, true, false, not, ◌&&◌, ◌||◌}
pub use mathlib.Core.Option.{Option, none, some}
pub use mathlib.Core.List.{List, [], ◌∷◌, ◌++◌, map}
pub use native.Mathlib.Omega.{arith}
