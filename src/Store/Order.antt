-- ===== src/Store/Order.antt =====
-- ORDER BY a time and then an identifier, ascending: the sort that SQLite makes of the rows.
use Prim.Native.String.{compare}
use Prim.Native.Nat.{Ordering}
use ai_factory_lab.Common.{
  ℕ, String, Bool, true, false, ◌||◌, ◌&&◌, List, [], ◌∷◌, ltb, ◌==◌, nat_eq, if◌then◌else◌,
}

text_le : String → String → Bool
text_le s t = elim (compare s t) [ Ordering.gt ↦ false | _ ↦ true ]

module _ {A : Type 0} (time : A → ℕ) (name : A → String) where
  row_le : A → A → Bool
  unfolding text_le
  row_le a b = ltb (time a) (time b) || (time a == time b && text_le (name a) (name b))

  place : A → List A → List A
  unfolding row_le
  place a [] = a ∷ []
  place a (b ∷ bs) = if row_le a b then a ∷ b ∷ bs else b ∷ place a bs

  unfoldable pub order_by : List A → List A
  unfolding place
  order_by [] = []
  order_by (a ∷ rest) = place a (order_by rest)
