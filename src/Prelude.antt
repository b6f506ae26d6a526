-- ===== src/Prelude.antt =====
-- The names that every part shares: the libraries' own, passed on, and those of five children.
mod Tests
mod Lists
mod Outcome
mod Int
mod Chars
pub use Tests.*
pub use Lists.*
pub use Outcome.*
unfoldable pub use Chars.*
pub use Int.*
pub use Prim.Native.Nat.{max, min, ℕ, zero, suc, ◌+◌, ◌-◌, ◌*◌, ◌%◌, ◌^◌, ◌≤◌, ◌<◌}
pub use Prim.Native.String.{String}
pub use mathlib.Core.Path.{◌≡◌, refl, sym, ap, ◌∙◌, subst}
pub use mathlib.Core.Logic.{◌≢◌, ◌↔◌, ◌⊎◌, inl, inr, ⊎_elim}
pub use mathlib.Core.Bool.{Bool, true, false, ◌&&◌, ◌||◌, not}
pub use mathlib.Core.Option.{Option, none, some}
pub use mathlib.Core.List.{List, [], ◌∷◌, ◌++◌, map, append-nil, append_assoc}
pub use native.Mathlib.Omega.{arith}
