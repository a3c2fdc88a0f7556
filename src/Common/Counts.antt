-- ===== src/Common/Counts.antt =====
-- How many rows of a table pass a test, across an update and an insert.
use Prim.Native.Nat.{◌+◌, ◌≤◌}
use mathlib.Core.Path.{◌≡◌, refl}
use mathlib.Core.Bool.{Bool, true, false}
use mathlib.Core.List.{List, [], ◌∷◌, ◌++◌}
use native.Mathlib.Omega.{arith}
use ai_factory_lab.Common.Lists.{any, count, update_where}

module _ {ℓ} {A : Type ℓ} where
  pub count-update_where :
      (q p : A → Bool) (f : A → A) (xs : List A)
      → ((x : A) → q (f x) ≡ q x)
      → count q (update_where p f xs) ≡ count q xs
  count-update_where q p f [] h = refl
  count-update_where q p f (x ∷ xs) h = ground (arith, h x, count-update_where q p f xs h)

  pub count-grows :
      (q p : A → Bool) (f : A → A) (xs : List A)
      → ((x : A) → q x ≡ true → q (f x) ≡ true)
      → count q xs ≤ count q (update_where p f xs)
  count-grows q p f [] h = omega arith
  count-grows q p f (x ∷ xs) h = ground (arith, h x, count-grows q p f xs h)

  pub count-gains :
      (q p : A → Bool) (f : A → A) (xs : List A)
      → ((x : A) → p x ≡ true → q x ≡ false)
      → ((x : A) → p x ≡ true → q (f x) ≡ true)
      → count q (update_where p f xs) ≡ count q xs + count p xs
  count-gains q p f [] before after = omega arith
  count-gains q p f (x ∷ xs) before after =
      ground (arith, before x, after x, count-gains q p f xs before after)

  pub count-never : (q : A → Bool) (xs : List A) → any q xs ≡ false → count q xs ≡ 0
  count-never q [] h = refl
  count-never q (x ∷ xs) h = ground (arith, h, count-never q xs)

  pub count-append : (p : A → Bool) (xs ys : List A) → count p (xs ++ ys) ≡ count p xs + count p ys
  count-append p [] ys = omega arith
  count-append p (x ∷ xs) ys = ground (arith, count-append p xs ys)
