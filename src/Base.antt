-- ===== src/Base.antt =====
-- The names that the other modules share: those of the libraries that are in use, Boolean tests,
-- lists over the native numbers, byte strings, and Go's results with the panic as a value.
mod Tests
mod Lists
mod Results
pub mod Buffer
pub mod Integer
pub mod State
pub mod Keeps
pub mod Ends
pub mod Succeeds
pub use Tests.*
pub use Lists.*
unfoldable pub use Lists.{same, has_prefix, mem_bytes}
pub use Results.*
pub use Prim.Native.Nat.{ℕ, zero, suc, ◌+◌, ◌-◌, ◌*◌, ◌/◌, ◌%◌, ◌^◌, ◌≤◌, ◌<◌}
pub use Prim.Native.String.{String}
pub use mathlib.Core.Path.{◌≡◌, refl, sym, ap, ◌∙◌}
pub use mathlib.Core.Logic.{◌≢◌, ◌↔◌, ◌⊎◌, inl, inr}
pub use mathlib.Core.Bool.{Bool, true, false, ◌&&◌, ◌||◌, not}
pub use mathlib.Core.Option.{Option, none, some}
pub use mathlib.Core.List.{List, [], ◌∷◌, ◌++◌, map, append-nil, append_assoc}
pub use native.Mathlib.Omega.{arith}
