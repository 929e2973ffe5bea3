-- ===== src/Base.antt =====
-- Names shared by every module: the libraries', passed on, Boolean tests, conditionals, rows of a
-- table, and the results of code that may raise.
pub mod Tests
pub mod Lists
pub mod Results
pub mod Text
pub mod Ordering
pub mod Arithmetic
pub use Tests.*
unfoldable pub use Lists.*
pub use Results.*
pub use Arithmetic.*
unfoldable pub use Text.{codes, hex_digits, decimal, contains_text, lower_ascii}
pub use Prim.Native.Nat.{ℕ, zero, suc, ◌+◌, ◌-◌, ◌*◌, ◌/◌, ◌%◌, ◌^◌, ◌≤◌, ◌<◌, max, min}
pub use Prim.Native.String.{String}
pub use mathlib.Core.Path.{◌≡◌, refl, sym, ap, ◌∙◌, subst}
pub use mathlib.Core.Logic.{◌≢◌, ◌↔◌, ◌⊎◌, inl, inr}
pub use mathlib.Core.Bool.{Bool, true, false, not, ◌&&◌, ◌||◌, false≢true}
pub use mathlib.Core.Option.{Option, none, some}
pub use mathlib.Core.List.{List, [], ◌∷◌, ◌++◌, map, append_assoc, append-nil}
pub use native.Mathlib.Omega.{arith}
pub use text.Mathlib.Text.{◌==◌ as str_eq}
pub use text.Mathlib.TextEquality.{eq_iff}
pub use text.Mathlib.TextPositions.{eq_refl}
