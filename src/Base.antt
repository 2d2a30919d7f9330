-- ===== src/Base.antt =====
-- Names, operators and lemmas that the other modules share.
pub mod Logic
pub mod Lists
pub mod Int
pub mod Text
pub mod Effect
pub mod Invariant
pub use Logic.*
pub use Lists.*
pub use Text.{Dict}
pub use Int.{ℤ, pos, negsuc, ltb_ℤ, minus, ◌+ℤ◌}
pub use Effect.*
pub use Invariant.*
pub use Prim.Native.Nat.{ℕ, zero, suc, ◌+◌, ◌-◌, ◌*◌, ◌/◌, ◌%◌, ◌^◌, ◌≤◌, ◌<◌, min}
pub use Prim.Native.String.{String}
pub use mathlib.Core.Path.{◌≡◌, refl, sym, ap, ◌∙◌, subst}
pub use mathlib.Core.Logic.{◌≢◌, ◌⊎◌, inl, inr, ◌↔◌}
pub use mathlib.Core.Bool.{Bool, true, false, not, ◌&&◌, ◌||◌}
pub use mathlib.Core.Option.{Option, none, some}
pub use mathlib.Core.List.{List, [], ◌∷◌, ◌++◌, map, append-nil, append_assoc}
pub use native.Mathlib.Omega.{arith}
