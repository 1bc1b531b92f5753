-- ===== src/Base.antt =====
-- The names that the modules of all components share: those of the libraries, passed on, and
-- those of the children. Go's `int` values whose sign the code tests are the integers of Base/Int;
-- a Go string is its list of bytes (Base/Strings); a Go map is a function into `Option` (Base/Maps).
mod Tests
mod Lists
mod Strings
mod Maps
pub mod Int
pub mod Strconv
pub use Tests.*
unfoldable pub use Lists.*
unfoldable pub use Strings.*
pub use Maps.*
pub use Prim.Native.Nat.{ℕ, zero, suc, ◌+◌, ◌-◌, ◌*◌, ◌/◌, ◌%◌, ◌^◌, ◌≤◌, ◌<◌}
pub use mathlib.Core.Path.{◌≡◌, refl, sym, ap, ◌∙◌, subst}
pub use mathlib.Core.Logic.{◌≢◌, ◌↔◌, ◌⊎◌, inl, inr, ite, if_pos, if_neg}
pub use mathlib.Core.Bool.{Bool, true, false, ◌&&◌, ◌||◌, not}
pub use mathlib.Core.Option.{Option, none, some}
pub use mathlib.Core.List.{List, [], ◌∷◌, ◌++◌, map}
pub use native.Mathlib.Omega.{arith}
unfoldable pub use native.Mathlib.Decide.{dec_lt, ℕ_discrete}
