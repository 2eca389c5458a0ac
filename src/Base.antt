-- ===== src/Base.antt =====
-- What the modules of the development share: names of the libraries, passed on, and the children
-- for tests, lists, integers, times, texts and string-keyed maps.
mod Tests
mod Lists
mod Int
mod Clock
mod Text
mod Maps
mod Order
mod Float
mod Utf8
mod Results
mod Atoi
mod Strings
unfoldable pub use Tests.*
unfoldable pub use Lists.*
unfoldable pub use Int.*
unfoldable pub use Clock.*
unfoldable pub use Text.*
unfoldable pub use Maps.*
unfoldable pub use Order.*
pub use Float.*
unfoldable pub use Utf8.*
unfoldable pub use Results.*
unfoldable pub use Atoi.*
unfoldable pub use Strings.*
pub use Prim.Native.Nat.{ℕ, zero, suc, ◌+◌, ◌-◌, ◌*◌, ◌/◌, ◌%◌, ◌^◌, ◌≤◌, ◌<◌, min, max}
pub use Prim.Native.String.{String}
pub use mathlib.Core.Path.{◌≡◌, refl, sym, ap, ◌∙◌, subst}
pub use mathlib.Core.Logic.{◌≢◌, ◌↔◌, ◌⊎◌, inl, inr}
pub use mathlib.Core.Bool.{Bool, true, false, not, ◌&&◌, ◌||◌}
pub use mathlib.Core.Option.{Option, none, some}
pub use mathlib.Core.List.{List, [], ◌∷◌, ◌++◌, map}
pub use native.Mathlib.Omega.{arith}
