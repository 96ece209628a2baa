-- ===== src/Base.antt =====
-- What the modules share: the libraries' names, passed on, Boolean tests, lists measured by native
-- numbers, results with `do`, bytes in big-endian order, bit masks and the loop that decodes a
-- sequence of items from the front of a slice.
mod Tests
mod Lists
mod Results
mod Bits
mod Wire
pub mod Loop
pub mod Framed
pub mod Indexed
pub mod Utf8
pub mod Int
pub mod BitTests
pub use Tests.*
unfoldable pub use Lists.*
pub use Results.*
pub use Bits.*
pub use Wire.*
pub use Prim.Native.Nat.{ℕ, zero, suc, ◌+◌, ◌-◌, ◌*◌, ◌/◌, ◌%◌, ◌^◌, ◌≤◌, ◌<◌, min, max}
pub use Prim.Native.Nat.{bit_and, bit_or, bit_xor}
pub use Prim.Native.String.{String}
pub use mathlib.Core.Path.{◌≡◌, refl, sym, ap, ◌∙◌, subst, fun_ext}
pub use mathlib.Core.Logic.{◌≢◌, ◌↔◌, ◌⊎◌, inl, inr}
pub use mathlib.Core.Bool.{Bool, true, false, not, ◌&&◌, ◌||◌}
pub use mathlib.Core.Option.{Option, none, some}
pub use mathlib.Core.List.{List, [], ◌∷◌, ◌++◌, map, reverse}
pub use mathlib.Core.List.{append-nil, append_assoc}
pub use native.Mathlib.Omega.{arith}
