-- ===== src/Common/Updates.antt =====
-- Laws of the queries and updates over a table's rows.
use mathlib.Core.Path.{◌≡◌, refl, sym, ap, ◌∙◌}
use mathlib.Core.Logic.{inl, inr}
use mathlib.Core.Bool.{Bool, true, false, ◌||◌}
use mathlib.Core.List.{List, [], ◌∷◌, ◌++◌}
use mathlib.Core.Option
use mathlib.Core.Option.{Option, none, some}
use native.Mathlib.Omega.{arith}
use ai_factory_lab.Common.Tests.{if◌then◌else◌, Bool-cases}
use ai_factory_lab.Common.Lists.{find, select, any, update_where, last?}

module _ {ℓ} {A : Type ℓ} where
  -- What an UPDATE does to one row.
  abbrev pub updated : (A → Bool) → (A → A) → A → A
  updated p f x = if p x then f x else x

  -- An update that keeps what a query reads acts on the row that the query finds.
  pub find-update_where :
      (q p : A → Bool) (f : A → A) (xs : List A)
      → ((x : A) → q (updated p f x) ≡ q x)
      → find q (update_where p f xs) ≡ Option.map (updated p f) (find q xs)
  find-update_where q p f [] keeps = refl
  find-update_where q p f (x ∷ xs) keeps = elim (Bool-cases (q x)) [
    | inl found ↦ rw (keeps x, found)
    | inr missed ↦ rw (keeps x, missed) (find-update_where q p f xs keeps)
  ]

  pub select-append :
      (p : A → Bool) (xs ys : List A) → select p (xs ++ ys) ≡ select p xs ++ select p ys
  select-append p [] ys = refl
  select-append p (x ∷ xs) ys = ground (arith, select-append p xs ys)

  -- An update of rows that a query does not keep leaves the answer.
  pub select-update_where :
      (q p : A → Bool) (f : A → A) (xs : List A)
      → ((x : A) → q (updated p f x) ≡ q x)
      → select q (update_where p f xs) ≡ update_where p f (select q xs)
  select-update_where q p f [] keeps = refl
  select-update_where q p f (x ∷ xs) keeps = elim (Bool-cases (q x)) [
    | inl kept ↦
        rw (keeps x, kept) (ap (λ r. updated p f x ∷ r) (select-update_where q p f xs keeps))
    | inr left ↦ rw (keeps x, left) (select-update_where q p f xs keeps)
  ]

  pub find_holds : (q : A → Bool) (xs : List A) {x : A} → find q xs ≡ some x → q x ≡ true
  find_holds q [] h = cc
  find_holds q (y ∷ ys) {x} h = ground (arith, find_holds q ys {x = x})

  pub find-append :
      (p : A → Bool) (xs ys : List A) {x : A} → find p xs ≡ some x → find p (xs ++ ys) ≡ some x
  find-append p [] ys h = cc
  find-append p (y ∷ xs) ys {x} h = ground (arith, h, find-append p xs ys {x = x})

  pub any_or : (f g : A → Bool) (xs : List A) → any (λ x. f x || g x) xs ≡ (any f xs || any g xs)
  any_or f g [] = refl
  any_or f g (x ∷ xs) = ground (arith, any_or f g xs)

  pub any_never : (xs : List A) → any (λ x. false) xs ≡ false
  any_never [] = refl
  any_never (x ∷ xs) = any_never xs

  pub last?-append : (xs : List A) (x : A) → last? (xs ++ x ∷ []) ≡ some x
  last?-append [] x = refl
  last?-append (y ∷ []) x = refl
  last?-append (y ∷ z ∷ ys) x = last?-append (z ∷ ys) x

-- The two ways to ask for a pair.
pub any_swap {ℓ κ} :
    {A : Type ℓ} {B : Type κ} (r : A → B → Bool) (xs : List A) (ys : List B)
    → any (λ x. any (λ y. r x y) ys) xs ≡ any (λ y. any (λ x. r x y) xs) ys
any_swap r [] ys = sym (any_never ys)
any_swap r (x ∷ xs) ys =
    ap (λ b. any (λ y. r x y) ys || b) (any_swap r xs ys)
    ∙ sym (any_or (λ y. r x y) (λ y. any (λ x'. r x' y) xs) ys)
