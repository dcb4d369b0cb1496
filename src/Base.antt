-- ===== src/Base.antt =====
-- The names that every module of the library shares: the libraries', passed on, and those of the
-- children, which hold equality tests, results, list helpers and finite maps.
mod Equality
mod Results
mod Lists
mod Perms
pub mod Dict
unfoldable pub use Equality.*
unfoldable pub use Results.*
unfoldable pub use Lists.*
pub use Perms.*
pub use Prim.Native.Nat.{ℕ, zero, suc, ◌+◌, ◌-◌, ◌*◌, ◌/◌, ◌%◌, ◌≤◌, ◌<◌}
pub use Prim.Native.Char.{Char, code}
pub use Prim.Native.String.{String, ◌++◌ as ◌<>◌}
pub use mathlib.Core.Path.{◌≡◌, refl, sym, ap, ap₂, ◌∙◌, subst}
pub use mathlib.Core.Logic.{◌≢◌, ◌↔◌, ◌⊎◌, inl, inr}
pub use mathlib.Core.Bool.{Bool, true, false, not, ◌&&◌, ◌||◌}
pub use mathlib.Core.Option.{Option, none, some}
pub use mathlib.Core.List.{List, [], ◌∷◌, ◌++◌, map, Memᴰ, Perm}
pub use native.Mathlib.Omega.{arith}
