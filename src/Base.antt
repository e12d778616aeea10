-- ===== src/Base.antt =====
-- The names that the other modules share: the libraries', passed on, Boolean tests, machine words,
-- lists measured by native numbers, and results with exceptions.
mod Tests
mod Words
mod Lists
mod Results
mod Maps
mod Bits
pub use Tests.*
pub use Words.*
pub use Lists.*
pub use Results.*
pub use Maps.*
pub use Bits.*
pub use Prim.Native.Nat.{ℕ, zero, suc, ◌+◌, ◌-◌, ◌*◌, ◌/◌, ◌%◌, ◌^◌, ◌≤◌, ◌<◌, min, max}
pub use mathlib.Core.Path.{◌≡◌, refl, sym, ap, ap₂, subst, subst₂, ◌∙◌}
pub use mathlib.Core.Logic.{◌≢◌, ◌↔◌, ◌⊎◌, inl, inr}
pub use mathlib.Core.Bool.{Bool, true, false, not, ◌&&◌, ◌||◌}
pub use mathlib.Core.Option.{Option, none, some}
pub use mathlib.Core.List.{List, [], ◌∷◌, ◌++◌, append-nil, append_assoc}
pub use native.Mathlib.Omega.{arith}
