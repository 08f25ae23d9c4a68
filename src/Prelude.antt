-- ===== src/Prelude.antt =====
-- The names that the other modules share: the libraries', passed on, and those of the children.
mod Tests
mod Lists
mod Word
pub mod Outcome
pub mod OrdMap
mod Text
pub mod Bytes
pub mod Utf8
pub use Text.{is_whitespace, is_empty}
pub use Text.{trim-trim}
unfoldable pub use Text.{trim_start, trim}
pub use Tests.*
pub use Lists.*
unfoldable pub use Lists.{find, retain, any}
pub use Word.{u8_max, u16_max, u32_max, u64_max, saturating_add-le, saturating_add_exact}
unfoldable pub use Word.{saturating_add, checked_add, checked_mul, wrapping_add32}
pub use Prim.Native.Nat.{ℕ, zero, suc, ◌+◌, ◌-◌, ◌*◌, ◌/◌, ◌%◌, ◌^◌, ◌≤◌, ◌<◌, min, max}
pub use mathlib.Core.Path.{◌≡◌, refl, sym, ap, ◌∙◌}
pub use mathlib.Core.Logic.{◌≢◌, ◌↔◌, ◌⊎◌, inl, inr}
pub use mathlib.Core.Bool.{Bool, true, false, not, ◌&&◌, ◌||◌}
pub use mathlib.Core.Option.{Option, none, some}
pub use mathlib.Core.List.{List, [], ◌∷◌, ◌++◌, map}
pub use native.Mathlib.Omega.{arith}
