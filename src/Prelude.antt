-- ===== src/Prelude.antt =====
-- The names that the other modules share: the libraries' names passed on, the Boolean tests on
-- the native numbers, and lists measured and indexed by native numbers.
mod Tests
mod Lists
mod Members
mod Words
mod Texts
mod Sorts
mod Ints
mod Trims
mod Options
mod Bits
pub use Tests.*
pub use Lists.*
unfoldable pub use Trims.{is_space, keep, trim_left, trim_right}
pub use Options.{◌>>=◌, >>=-eq-some}
pub use Bits.{bit_or-append, pow_suc}
pub use Ints.{ℤ, pos, negsuc}
pub use Members.*
unfoldable pub use Sorts.{sort}
pub use Sorts.{IsSorted, IsSorted-Distinct, sort_iff, sort-IsSorted}
unfoldable pub use Texts.{same_text}
pub use Texts.{same_text_sound, same_text_refl}
unfoldable pub use Words.{increment64, increment32, add64, sub64}
pub use Prim.Native.Nat.{ℕ, zero, suc, ◌+◌, ◌-◌, ◌*◌, ◌/◌, ◌%◌, ◌^◌, ◌≤◌, ◌<◌, min, max, bit_or}
pub use mathlib.Core.Path.{◌≡◌, refl, sym, ap, ◌∙◌, subst}
pub use mathlib.Core.Logic.{◌≢◌, ◌↔◌, ◌⊎◌, inl, inr}
pub use mathlib.Core.Bool.{Bool, true, false, not, ◌&&◌, ◌||◌}
pub use mathlib.Core.Option.{Option, none, some}
pub use mathlib.Core.List.{List, [], ◌∷◌, ◌++◌, map}
pub use native.Mathlib.Omega.{arith}
