-- ===== src/Prelude.antt =====
-- The names that the other modules share: the libraries', passed on, and those of the children.
mod Tests
mod Lists
mod Python
mod Dicts
mod Texts
pub use Tests.*
pub use Lists.*
pub use Python.*
pub use Texts.{Text, codes, All-append, All-implies, decimal-digits}
unfoldable pub use Texts.{join, contains, starts_with, str, decimal}
pub use Dicts.{Dict, dict_get_own, dict_get_other, dict_set_same}
unfoldable pub use Dicts.{dict_get, dict_set, map_values}
pub use Prim.Native.Nat.{ℕ, zero, suc, ◌+◌, ◌-◌, ◌*◌, ◌/◌, ◌%◌, ◌^◌, ◌≤◌, ◌<◌}
pub use Prim.Native.Nat.{min, max, bit_and, bit_or}
pub use mathlib.Core.Path.{◌≡◌, refl, sym, ap, ap₂, ◌∙◌, subst}
pub use mathlib.Core.Logic.{◌≢◌, ◌↔◌, ◌⊎◌, inl, inr}
pub use mathlib.Core.Bool.{Bool, true, false, not, ◌&&◌, ◌||◌}
pub use mathlib.Core.Option.{Option, none, some}
pub use mathlib.Core.List.{List, [], ◌∷◌, ◌++◌, map, reverse}
unfoldable pub use mathlib.Core.List.{flatten}
pub use mathlib.Core.List.{append_assoc, append-nil, reverse-reverse}
pub use native.Mathlib.Omega.{arith}
