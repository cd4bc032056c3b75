-- ===== src/Base.antt =====
-- The names that all modules share: the libraries', passed on, and those of the children.
mod Tests
mod Words
mod Lists
mod Results
mod ByteStrings
mod Text
pub use Text.{codes}
pub use Tests.*
pub use Words.{wrap, wrap_small, div_ceil_covers}
unfoldable pub use Words.{div_ceil}
pub use Lists.*
pub use Results.*
pub use ByteStrings.{Bytes, Hash32, bytes_eq_iff, bytes_eq_refl, bytes_dec}
unfoldable pub use ByteStrings.{bytes_eq}
pub use Prim.Native.Nat.{ℕ, zero, suc, ◌+◌, ◌-◌, ◌*◌, ◌/◌, ◌%◌, ◌^◌, ◌≤◌, ◌<◌}
pub use mathlib.Core.Path.{◌≡◌, refl, sym, ap, ◌∙◌}
pub use mathlib.Core.Logic.{◌≢◌, ◌↔◌, ◌⊎◌, inl, inr}
pub use mathlib.Core.Bool.{Bool, true, false, not, ◌&&◌, ◌||◌}
pub use mathlib.Core.Option.{Option, none, some}
pub use mathlib.Core.List.{List, [], ◌∷◌, ◌++◌, map}
pub use native.Mathlib.Omega.{arith}
