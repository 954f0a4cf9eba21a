-- ===== src/Prelude.antt =====
-- The names that the other modules share: the libraries', passed on, and those of the children.
-- No code of the repository is modelled here.
mod Tests
mod Lists
mod Results
pub mod Equality
pub mod Texts
pub mod Dict
pub mod Count
pub use Tests.*
pub use Lists.*
pub use Results.*
pub use Equality.{Eq, nat_eq, ◌≟◌, Eq-cases}
unfoldable pub use Equality.{contains}
unfoldable pub use Count.{count_of, count_all}
pub use Count.{
  count_of-nil, count_of-cons, count_of-append, contains-count_of, count_of-contains, count_all-set,
}
pub use Prim.Native.Nat.{ℕ, zero, suc, ◌+◌, ◌-◌, ◌*◌, ◌/◌, ◌%◌, ◌^◌, ◌≤◌, ◌<◌, min, max}
pub use mathlib.Core.Path.{◌≡◌, refl, sym, ap, ◌∙◌}
pub use mathlib.Core.Logic.{◌≢◌, ◌↔◌, ◌⊎◌, inl, inr}
pub use mathlib.Core.Bool.{Bool, true, false, not, ◌&&◌, ◌||◌}
pub use mathlib.Core.Option.{Option, none, some}
pub use mathlib.Core.List.{List, [], ◌∷◌, ◌++◌, map, append-nil, append_assoc}
pub use native.Mathlib.Omega.{arith}
