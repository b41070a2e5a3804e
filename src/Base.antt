-- ===== src/Base.antt =====
-- The names that the other modules share: the libraries', passed on, and those of the children.
mod Tests
mod Lists
mod Text
mod Sort
mod Fallible
pub mod Stateful
pub mod Distinct
pub use Tests.*
pub use Lists.*
pub use Fallible.*
unfoldable pub use Text.{str_eq, str_lt, is_empty, includes}
pub use Text.{
  Str, codes, str_eq_iff, str_eq_refl, str_lt_irrefl, str_lt-asym, str_lt_trans, str_lt-connex,
  includes-Member, Member-includes,
}
unfoldable pub use Sort.{insert_by, sort_by}
pub use Sort.{
  Comparable, AllComparable, Sorted, sort-id, length-sort, sort-All, sort-Perm, All-Perm,
  sort-All_back, map-sort,
}
pub use Prim.Native.Nat.{ℕ, zero, suc, ◌+◌, ◌-◌, ◌*◌, ◌/◌, ◌%◌, ◌^◌, ◌≤◌, ◌<◌}
pub use Prim.Native.String.{String}
pub use mathlib.Core.Path.{◌≡◌, refl, sym, ap, ◌∙◌, subst}
pub use mathlib.Core.Logic.{◌≢◌, ◌↔◌, ◌⊎◌, inl, inr}
pub use mathlib.Core.Bool.{Bool, true, false, not, ◌&&◌, ◌||◌}
pub use mathlib.Core.Option.{Option, none, some}
pub use mathlib.Core.List.{List, [], ◌∷◌, ◌++◌, map, append-nil, append_assoc}
pub use native.Mathlib.Omega.{arith}
