-- ===== src/Common.antt =====
-- The names that the other modules share: the libraries', passed on, and those of the children.
pub mod Tests
pub mod Lists
pub mod Updates
pub mod Text
pub mod Counts
pub use Tests.{
  ltb, leb, nat_beq, nat_beq_iff, if◌then◌else◌, Eq, ◌==◌, nat_eq, string_eq, option_eq, ==_refl,
  ==_ne, ==_false, ==_sym, is_none, is_some, Bool-cases, Option-cases, code_beq_iff,
}
pub use Updates.{
  updated, find-update_where, select-update_where, select-append, find_holds, last?-append,
  find-append, any_swap, any_never, any_or,
}
pub use Counts.{count-append, count-update_where, count-grows, count-gains, count-never}
pub use Text.{join, strip_right, is_blank, starts_with}
pub use Lists.{
  length, is_empty, last?, any, all, select, find, count, update_where, length-append, contains,
}
pub use Prim.Native.Nat.{ℕ, zero, suc, ◌+◌, ◌-◌, ◌*◌, ◌^◌, ◌≤◌, ◌<◌, min, max}
pub use Prim.Native.String.{String}
pub use mathlib.Core.Path.{◌≡◌, refl, sym, ap, ◌∙◌, subst}
pub use mathlib.Core.Logic.{◌≢◌, ◌↔◌, ◌⊎◌, inl, inr}
pub use mathlib.Core.Bool.{Bool, true, false, not, ◌&&◌, ◌||◌}
pub use mathlib.Core.Option.{Option, none, some}
pub use mathlib.Core.List.{List, [], ◌∷◌, ◌++◌, map}
pub use native.Mathlib.Omega.{arith}
