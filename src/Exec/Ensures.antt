-- ===== src/Exec/Ensures.antt =====
-- What an action's results satisfy, whatever the ports answer and whatever is stored: one rule for
-- each way to build an action.
use ai_factory_lab.Common.{ℕ, suc, ◌≡◌, refl, Bool, true, false, if◌then◌else◌}
use ai_factory_lab.Domain.Errors.{Error, Result, ok, err}
use ai_factory_lab.Store.{Db}
use ai_factory_lab.Exec.{
  World, Exec, pure, raise, lift, query, ask, ◌>>=◌, continue, attempt, recover,
}

abbrev pub Holds : {A : Type 0} → (A → Type 0) → Result A → Type 0
Holds Q (ok a) = Q a
Holds Q (err e) = Unit

pub Holds-map :
    {A : Type 0} {R Q : A → Type 0} → ((a : A) → R a → Q a) → (r : Result A) → Holds R r → Holds Q r
Holds-map f (ok a) h = f a h
Holds-map f (err e) h = tt

-- Where `m` returns, its result satisfies `Q`.
pub record Ensures {A : Type 0} (Q : A → Type 0) (m : Exec A) : Type 0 where
  pub at : (w : World) → Holds Q (m w).0

module _ {A : Type 0} {Q : A → Type 0} where
  pub Ensures-pure : (a : A) → Q a → Ensures Q (pure a)
  unfolding pure
  Ensures-pure a h = record { at = λ w. h }

  pub Ensures-raise : (e : Error) → Ensures Q (raise e)
  unfolding raise
  Ensures-raise e = record { at = λ w. tt }

  pub Ensures-if :
      (b : Bool) (m n : Exec A)
      → (b ≡ true → Ensures Q m)
      → (b ≡ false → Ensures Q n)
      → Ensures Q (if b then m else n)
  Ensures-if true m n km kn = km refl
  Ensures-if false m n km kn = kn refl

  -- A guard: what comes after it may use that the test failed.
  pub Ensures-unless :
      (b : Bool) (e : Error) (m : Exec A)
      → (b ≡ false → Ensures Q m)
      → Ensures Q (if b then raise e else m)
  Ensures-unless true e m km = Ensures-raise e
  Ensures-unless false e m km = km refl

  -- A conditional whose branches both ensure `Q`, whatever the test.
  pub Ensures-branches :
      (b : Bool) (m n : Exec A) → Ensures Q m → Ensures Q n → Ensures Q (if b then m else n)
  Ensures-branches true m n km kn = km
  Ensures-branches false m n km kn = kn

  -- The result of an action that ensures `Q`.
  pub Ensures_result : (m : Exec A) → Ensures Q m → (w : World) {a : A} → (m w).0 ≡ ok a → Q a
  Ensures_result m ensured w {a} returned = rw returned at (ensured.at w)

module _ {A B : Type 0} {R : A → Type 0} {Q : B → Type 0} where
  Ensures-continue :
      (r : Result A) (f : A → Exec B)
      → Holds R r
      → ((a : A) → R a → Ensures Q (f a))
      → (w : World) → Holds Q (continue r f w).0
  Ensures-continue (ok a) f h kf w = (kf a h).at w
  Ensures-continue (err e) f h kf w = tt

  pub Ensures-bind :
      (m : Exec A) (f : A → Exec B)
      → Ensures R m
      → ((a : A) → R a → Ensures Q (f a))
      → Ensures Q (m >>= f)
  unfolding ◌>>=◌
  Ensures-bind m f km kf = record {
    at = λ w. let (r, w') = m w in Ensures-continue r f (km.at w) kf w';
  }

module _ {A B : Type 0} {R : A → Type 0} {Q : B → Type 0} where
  Ensures-recover :
      (r : Result A) (f : A → Exec B) (g : Error → Exec B)
      → Holds R r
      → ((a : A) → R a → Ensures Q (f a))
      → ((e : Error) → Ensures Q (g e))
      → (w : World) → Holds Q (recover r f g w).0
  Ensures-recover (ok a) f g h kf kg w = (kf a h).at w
  Ensures-recover (err e) f g h kf kg w = (kg e).at w

  pub Ensures-attempt :
      (m : Exec A) (f : A → Exec B) (g : Error → Exec B)
      → Ensures R m
      → ((a : A) → R a → Ensures Q (f a))
      → ((e : Error) → Ensures Q (g e))
      → Ensures Q (attempt m f g)
  unfolding attempt
  Ensures-attempt m f g km kf kg = record {
    at = λ w. let (r, w') = m w in Ensures-recover r f g (km.at w) kf kg w';
  }

Holds-anything : {A : Type 0} (r : Result A) → Holds (λ _. Unit {0}) r
Holds-anything (ok a) = tt
Holds-anything (err e) = tt

anything : {A : Type 0} (m : Exec A) → Ensures (λ _. Unit {0}) m
anything m = record { at = λ w. Holds-anything (m w).0 }

module _ {A B : Type 0} {Q : B → Type 0} where
  -- A bind whose rest ensures `Q` at every value.
  pub Ensures-then :
      (m : Exec A) (f : A → Exec B) → ((a : A) → Ensures Q (f a)) → Ensures Q (m >>= f)
  Ensures-then m f kf = Ensures-bind m f (anything m) (λ a _. kf a)

  pub Ensures-ask :
      (g : ℕ → A) (f : A → Exec B) → ((n : ℕ) → Ensures Q (f (g n))) → Ensures Q (ask g >>= f)
  unfolding ◌>>=◌
  Ensures-ask g f kf = record { at = λ w. (kf w.tick).at (record w { tick = suc w.tick }) }

  pub Ensures-query :
      (g : Db → A) (f : A → Exec B) → ((db : Db) → Ensures Q (f (g db))) → Ensures Q (query g >>= f)
  unfolding ◌>>=◌
  Ensures-query g f kf = record { at = λ w. (kf w.db).at w }

module _ {A B : Type 0} {Q : B → Type 0} where
  -- What is computed before it is used is known where it is used.
  pub Ensures-lift :
      (r : Result A) (f : A → Exec B)
      → ((a : A) → r ≡ ok a → Ensures Q (f a))
      → Ensures Q (lift r >>= f)
  unfolding ◌>>=◌
  Ensures-lift (ok a) f kf = kf a refl
  Ensures-lift (err e) f kf = record { at = λ w. tt }

-- For actions whose every result satisfies `Q` by itself; the call adds the `Ensures-pure` facts.
pub ruleset ensures_rules = (Ensures-raise, Ensures-branches, Ensures-then)
