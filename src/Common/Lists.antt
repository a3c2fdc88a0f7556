-- ===== src/Common/Lists.antt =====
-- Lists measured by native numbers, and the tests over lists that the code writes with `in`, `any` and `all`.
use Prim.Native.Nat.{ℕ, suc, ◌+◌}
use mathlib.Core.Path.{◌≡◌}
use mathlib.Core.Bool.{Bool, true, false, ◌&&◌, ◌||◌}
use mathlib.Core.List.{List, [], ◌∷◌, ◌++◌}
use mathlib.Core.Option.{Option, none, some}
use native.Mathlib.Omega.{arith}
use ai_factory_lab.Common.Tests.{Eq, ◌==◌, if◌then◌else◌}

module _ {ℓ} {A : Type ℓ} where
  abbrev pub length : List A → ℕ
  length [] = 0
  length (x ∷ xs) = suc (length xs)

  -- `not xs`
  abbrev pub is_empty : List A → Bool
  is_empty [] = true
  is_empty (x ∷ xs) = false

  -- `xs[-1] if xs else None`
  abbrev pub last? : List A → Option A
  last? [] = none
  last? (x ∷ []) = some x
  last? (x ∷ y ∷ xs) = last? (y ∷ xs)

  abbrev pub any : (A → Bool) → List A → Bool
  any p [] = false
  any p (x ∷ xs) = p x || any p xs

  abbrev pub all : (A → Bool) → List A → Bool
  all p [] = true
  all p (x ∷ xs) = p x && all p xs

  -- the rows that a WHERE clause keeps
  abbrev pub select : (A → Bool) → List A → List A
  select p [] = []
  select p (x ∷ xs) = if p x then x ∷ select p xs else select p xs

  -- the first row that a WHERE clause keeps
  abbrev pub find : (A → Bool) → List A → Option A
  find p [] = none
  find p (x ∷ xs) = if p x then some x else find p xs

  abbrev pub count : (A → Bool) → List A → ℕ
  count p [] = 0
  count p (x ∷ xs) = if p x then suc (count p xs) else count p xs

  -- UPDATE ... WHERE
  abbrev pub update_where : (A → Bool) → (A → A) → List A → List A
  update_where p f [] = []
  update_where p f (x ∷ xs) = (if p x then f x else x) ∷ update_where p f xs

  pub length-append : (xs ys : List A) → length (xs ++ ys) ≡ length xs + length ys
  length-append [] ys = omega arith
  length-append (x ∷ xs) ys = omega (arith, length-append xs ys)

abbrev pub contains {ℓ} : {A : Type ℓ} ⦃e : Eq A⦄ → List A → A → Bool
contains [] a = false
contains (x ∷ xs) a = a == x || contains xs a
