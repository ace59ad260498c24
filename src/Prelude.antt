-- ===== src/Prelude.antt =====
-- The names that every module shares: the libraries', passed on, and those of four children.
mod Tests
mod Lists
mod Tables
mod Pairs
pub mod Int
pub use Tests.*
pub use Lists.*
unfoldable pub use Tables.{find_first, update_where, total}
pub use Tables.{
  indicator, find_first-holds, total-update_where, total-update_same, find_first-none,
  find_first-widen, All, All-weaken, All-update_where, find_first-All, find_first-update_where,
}
pub use Pairs.{
  Pairwise, Pairwise-weaken, find_first-none-All, All-find_first-none, only_row, Keeps,
  Pairwise-update_where, total-update_less, found_counts_as, find_first-by_key, find_first-kept,
  insert_once,
}
pub use Prim.Native.Nat.{ℕ, zero, suc, ◌+◌, ◌-◌, ◌*◌, ◌/◌, ◌%◌, ◌≤◌, ◌<◌, min}
pub use Prim.Native.String.{String}
pub use mathlib.Core.Path.{◌≡◌, refl, sym, ap, ◌∙◌}
pub use mathlib.Core.Logic.{◌≢◌, ◌↔◌, ◌⊎◌, inl, inr}
pub use mathlib.Core.Bool.{Bool, true, false, not, ◌&&◌, ◌||◌}
pub use mathlib.Core.Option.{Option, none, some}
pub use mathlib.Core.List.{List, [], ◌∷◌, ◌++◌, map}
pub use native.Mathlib.Omega.{arith}
