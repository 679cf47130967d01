-- ===== src/Prelude.antt =====
-- The names that every part of the development shares: the libraries', passed on, and the
-- helpers of four children on tests, lists, texts and dictionaries.
mod Tests
mod Lists
pub mod Strings
pub mod Dict
pub use Tests.*
pub use Lists.*
pub use Strings.{Text, codes, text_eq_iff, text_eq_refl}
unfoldable pub use Strings.{text_eq}
pub use Prim.Native.Nat.{ℕ, zero, suc, ◌+◌, ◌-◌, ◌*◌, ◌/◌, ◌%◌, ◌^◌, ◌≤◌, ◌<◌}
pub use Prim.Native.String.{String}
pub use mathlib.Core.Path.{◌≡◌, refl, sym, ap, ◌∙◌, subst}
pub use mathlib.Core.Logic.{◌≢◌, ◌↔◌, ◌⊎◌, inl, inr}
pub use mathlib.Core.Bool.{Bool, true, false, ◌&&◌, ◌||◌, not}
pub use mathlib.Core.Option.{Option, none, some}
pub use mathlib.Core.List.{List, [], ◌∷◌, ◌++◌, append-nil, append_assoc}
unfoldable pub use mathlib.Core.List.{map}
pub use native.Mathlib.Omega.{arith}
