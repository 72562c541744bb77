-- ===== src/Base.antt =====
-- The names that the other modules share.
mod Tests
mod Strings
pub use Tests.*
pub use Strings.{
  Text, length, take, drop, length-append, take-length-append, All, All-append, Lacks, eq_text_refl,
  eq_of_eq_text, eq_text_ne, is_empty, Passes, Fails, StopsAt, take_while-append, drop_while-append,
  find,
}
unfoldable pub use Strings.{codes, eq_text, take_while, drop_while, join_with}
pub use Prim.Native.Nat.{ℕ, zero, suc, ◌+◌, ◌-◌, ◌*◌, ◌/◌, ◌%◌, ◌^◌, ◌≤◌, ◌<◌}
pub use mathlib.Core.Path.{◌≡◌, refl, sym, ap, ◌∙◌}
pub use mathlib.Core.Logic.{◌≢◌, ◌↔◌, ◌⊎◌, inl, inr}
pub use mathlib.Core.Bool.{Bool, true, false, not, ◌&&◌, ◌||◌}
pub use mathlib.Core.Option.{Option, none, some}
pub use mathlib.Core.List.{List, [], ◌∷◌, ◌++◌, map, append_assoc, append-nil}
pub use native.Mathlib.Omega.{arith}
