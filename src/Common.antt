-- ===== src/Common.antt =====
-- What every module shares: the library names passed on, tests on numbers, lists, texts,
-- dictionaries (Go maps) and the results of Go functions.
mod Tests
mod Lists
mod Text
mod Maps
mod Results
mod Errors
pub mod Scan
pub mod Paths
mod Int
pub mod Exec
pub mod Poll
pub mod Disk
pub use Tests.*
pub use Lists.*
pub use Text.*
unfoldable pub use Maps.*
pub use Results.*
pub use Errors.*
pub use Scan.{scan_lines, split_lines}
pub use Int.{ℤ, pos, negsuc, is_positive}
unfoldable pub use Int.{decimal, itoa}
pub use Prim.Native.Nat.{ℕ, zero, suc, ◌+◌, ◌-◌, ◌*◌, ◌/◌, ◌%◌, ◌^◌, ◌≤◌, ◌<◌}
pub use Prim.Native.String.{String}
pub use mathlib.Core.Path.{◌≡◌, refl, sym, ap, subst, ◌∙◌, ◌≡⟨◌⟩◌, ◌∎}
pub use mathlib.Core.Logic.{◌≢◌, ◌↔◌, ◌⊎◌, inl, inr}
pub use mathlib.Core.Bool.{Bool, true, false, not, ◌&&◌, ◌||◌}
pub use mathlib.Core.Option.{Option, none, some}
pub use mathlib.Core.List.{List, [], ◌∷◌, ◌++◌, map, append-nil, append_assoc}
pub use native.Mathlib.Omega.{arith}
pub use text.Mathlib.Text.{◌==◌}
pub use text.Mathlib.TextEquality.{eq_iff}
pub use text.Mathlib.TextPositions.{eq_refl}
