-- ===== src/Common.antt =====
-- The names that the other modules share: the libraries', passed on, and those of two children.
mod Tests
mod Lists
mod Integers
pub use Tests.*
pub use Integers.*
pub use Lists.{
  take, get_or, take-append, drop-append_length, length, get_last?, get_last?-append,
  keep_last-append, drop-append, get_elem?, modify, drop, length-append, length-drop,
  length-keep_last, length-modify, get_elem?-modify_self, All, All-append, All-drop, All-modify,
  All-map, All-get_elem?, get_elem?-append, get_elem?-lt, All-keep_last, All-imp, length-map,
}
unfoldable pub use Lists.{keep_last}
pub use Prim.Native.Nat.{ℕ, zero, suc, ◌+◌, ◌-◌, ◌*◌, ◌/◌, ◌%◌, ◌^◌, ◌≤◌, ◌<◌}
pub use Prim.Native.Char.{Char, code}
pub use Prim.Native.String.{String}
pub use mathlib.Core.Path.{◌≡◌, refl, sym, ap, subst, ◌∙◌}
pub use mathlib.Core.Logic.{◌≢◌, ◌↔◌, ◌⊎◌, inl, inr}
pub use mathlib.Core.Bool.{Bool, true, false, not, ◌&&◌, ◌||◌}
pub use mathlib.Core.Option.{Option, none, some, some-injective}
pub use mathlib.Core.List.{List, [], ◌∷◌, ◌++◌, map}
pub use native.Mathlib.Omega.{arith}
pub use text.Mathlib.Text.{◌==◌}
pub use text.Mathlib.TextEquality.{eq_iff}
pub use text.Mathlib.TextPositions.{eq_refl}
