-- ===== src/Store/Tasks/Distinct.antt =====
-- Counting different identifiers: a list that names no others counts no more.
use ai_factory_lab.Common.{
  suc, ◌≤◌, String, ◌≡◌, ◌≢◌, refl, true, false, not, List, [], ◌∷◌, inl, inr, ◌==◌, string_eq,
  Bool-cases, contains, select, arith,
}
use ai_factory_lab.Store.Tasks.{count_distinct}

abbrev without : String → List String → List String
without x = select (λ y. not (y == x))

-- Every name of the first list is one of the second.
abbrev pub Names : List String → List String → Type 0
Names xs ys = (x : String) → contains xs x ≡ true → contains ys x ≡ true

contains-without_ne :
    (x y : String) (ys : List String) → x ≢ y → contains (without y ys) x ≡ contains ys x
contains-without_ne x y [] differ = refl
contains-without_ne x y (z ∷ ys) differ = ground (
  arith,
  contains-without_ne x y ys,
  string_eq.beq_iff z y,
  string_eq.beq_iff x z,
  string_eq.beq_iff x y,
)

without_absent : (x : String) (ys : List String) → contains ys x ≡ false → without x ys ≡ ys
without_absent x [] h = refl
without_absent x (y ∷ ys) h =
    ground (arith, without_absent x ys, string_eq.beq_iff x y, string_eq.beq_iff y x)

-- Taking a name away that is there lowers the count by one.
count_distinct-without :
    (x : String) (ys : List String)
    → contains ys x ≡ true
    → count_distinct ys ≡ suc (count_distinct (without x ys))
unfolding count_distinct
count_distinct-without x [] h = cc
count_distinct-without x (y ∷ ys) h = ground (
  arith,
  count_distinct-without x ys,
  without_absent x ys,
  contains-without_ne y x ys,
  string_eq.beq_iff x y,
  string_eq.beq_iff y x,
)

-- What stands in a list without `x` is not `x`.
Names-without :
    (x : String) (xs ys : List String)
    → contains xs x ≡ false
    → Names (x ∷ xs) ys
    → Names xs (without x ys)
Names-without x xs ys fresh within z h =
    ground (arith, within z, contains-without_ne z x ys, string_eq.beq_iff z x)

-- A list that names no others than a second one counts at most as many.
pub count_distinct_mono :
    (xs ys : List String) → Names xs ys → count_distinct xs ≤ count_distinct ys
unfolding count_distinct
count_distinct_mono [] ys within = omega arith
count_distinct_mono (x ∷ xs) ys within = elim (Bool-cases (contains xs x)) [
  | inl again ↦ rw again (count_distinct_mono xs ys (λ z h. within z (ground arith)))
  | inr fresh ↦ rw fresh (
      omega (
        arith,
        count_distinct-without x ys (within x (ground (arith, string_eq.beq_iff x x))),
        count_distinct_mono xs (without x ys) (Names-without x xs ys fresh within),
      ))
]
