-- ===== src/Base.antt =====
-- Names that the other modules share: library names passed on, Boolean tests and lists over the
-- native numbers, machine words and the EFI status codes.
mod Tests
mod Lists
mod Words
mod Rotation
mod Efi
mod BitLaws
unfoldable pub use Tests.*
pub use Lists.*
pub use Words.*
pub use Rotation.*
pub use Efi.*
pub use BitLaws.*
pub use Prim.Native.Nat.{ℕ, zero, suc, ◌+◌, ◌-◌, ◌*◌, ◌/◌, ◌%◌, ◌^◌, ◌≤◌, ◌<◌, min, bit_and, bit_or}
pub use mathlib.Core.Path.{◌≡◌, refl, sym, ap, ap₂, ◌∙◌}
pub use mathlib.Core.Logic.{◌≢◌, ◌↔◌, ◌⊎◌, inl, inr}
pub use mathlib.Core.Bool.{Bool, true, false, not, ◌&&◌, ◌||◌}
pub use mathlib.Core.Option.{Option, none, some}
pub use mathlib.Core.List.{List, [], ◌∷◌, ◌++◌, map, append-nil, append_assoc}
pub use native.Mathlib.Omega.{arith}
