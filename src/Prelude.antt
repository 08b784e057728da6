-- ===== src/Prelude.antt =====
-- The names that the other modules share: the libraries', passed on, and those of the children.
pub mod Tests
pub mod Strings
pub mod Maps
pub mod Lists
pub mod Splitting
pub mod Outcomes
pub mod ConcurrentMaps
pub mod ListMaps
pub use Tests.*
pub use Strings.{Text, codes, str_eq_iff, str_eq_refl, str_compare_refl, Before}
unfoldable pub use Strings.{str_compare, str_eq}
pub use Maps.{Dict, lookup-insert, lookup-insert_self, lookup-erase, dict_laws}
unfoldable pub use Maps.{lookup, insert, erase}
pub use Lists.*
pub use Outcomes.{Outcome, returned, panicked, Exec, pure, continue, ◌>>=◌, ◌>>◌}
unfoldable pub use Outcomes.{for_each}
pub use Prim.Native.Nat.{ℕ, zero, suc, ◌+◌, ◌-◌, ◌*◌, ◌/◌, ◌%◌, ◌^◌, ◌≤◌, ◌<◌}
pub use mathlib.Core.Path.{◌≡◌, refl, sym, ap, ◌∙◌}
pub use mathlib.Core.Logic.{◌≢◌, ◌↔◌, ◌⊎◌, inl, inr}
pub use mathlib.Core.Bool.{Bool, true, false, ◌&&◌, ◌||◌, not}
pub use mathlib.Core.Option.{Option, none, some}
pub use mathlib.Core.List.{List, [], ◌∷◌, ◌++◌, map}
pub use native.Mathlib.Omega.{arith}
