-- ===== src/Common.antt =====
-- The names that every module shares: the libraries', passed on, and those of the children:
-- Boolean tests and the conditional, lists over the native numbers, JavaScript strings as lists of
-- UTF-16 code units, and JavaScript's `Map` with string keys.
mod Tests
mod Lists
mod Texts
pub mod Dict
pub use Tests.*
pub use Lists.*
unfoldable pub use Texts.{text_eq, text_lt, split, number_of}
pub use Texts.{
  Text, codes, push, lacks, split-lacks, split-append, join, all_lack, split-join, text_eq_iff,
  text_eq_refl, text_eq_sym, text_ne, text_lt_asym, text_lt_total,
}
pub use Prim.Native.Nat.{ℕ, zero, suc, ◌+◌, ◌-◌, ◌*◌, ◌/◌, ◌%◌, ◌^◌, ◌≤◌, ◌<◌, min, max}
pub use mathlib.Core.Path.{◌≡◌, refl, sym, ap, subst, ◌∙◌}
pub use mathlib.Core.Logic.{◌≢◌, ◌↔◌, ◌⊎◌, inl, inr}
pub use mathlib.Core.Bool.{Bool, true, false, not, ◌&&◌, ◌||◌}
pub use mathlib.Core.Option.{Option, none, some}
pub use mathlib.Core.List.{List, [], ◌∷◌, ◌++◌, map}
pub use native.Mathlib.Omega.{arith}
