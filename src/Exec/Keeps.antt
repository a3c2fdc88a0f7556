-- ===== src/Exec/Keeps.antt =====
-- Invariants of the database under actions: one rule for each way to build an action.
use ai_factory_lab.Common.{ℕ, Bool, true, false, if◌then◌else◌}
use ai_factory_lab.Domain.Errors.{Error, Result, ok, err}
use ai_factory_lab.Store.{Db, Transaction}
use ai_factory_lab.Exec.{
  World, Effect, Exec, pure, raise, lift, query, ask, transact, emit, ◌>>=◌, continue, attempt,
  recover,
}

-- `m` keeps `P` of the database, whether it returns or raises.
pub record Keeps {A : Type 0} (P : Db → Type 0) (m : Exec A) : Type 0 where
  pub at : (w : World) → P w.db → P (m w).1.db

module _ {A : Type 0} {P : Db → Type 0} where
  pub Keeps-pure : (a : A) → Keeps P (pure a)
  unfolding pure
  Keeps-pure a = record { at = λ w h. h }

  pub Keeps-raise : (e : Error) → Keeps P (raise {A = A} e)
  unfolding raise
  Keeps-raise e = record { at = λ w h. h }

  pub Keeps-lift : (r : Result A) → Keeps P (lift r)
  unfolding lift
  Keeps-lift r = record { at = λ w h. h }

  pub Keeps-query : (f : Db → A) → Keeps P (query f)
  unfolding query
  Keeps-query f = record { at = λ w h. h }

  pub Keeps-ask : (f : ℕ → A) → Keeps P (ask f)
  unfolding ask
  Keeps-ask f = record { at = λ w h. h }

  pub Keeps-transact : (t : Transaction A) → ((db : Db) → P db → P (t db).1) → Keeps P (transact t)
  unfolding transact
  Keeps-transact t keeps = record { at = λ w h. keeps w.db h }

  pub Keeps-if : (b : Bool) (m n : Exec A) → Keeps P m → Keeps P n → Keeps P (if b then m else n)
  Keeps-if true m n km kn = km
  Keeps-if false m n km kn = kn

pub Keeps-emit : {P : Db → Type 0} (e : Effect) → Keeps P (emit e)
unfolding emit
Keeps-emit e = record { at = λ w h. h }

module _ {A B : Type 0} {P : Db → Type 0} where
  Keeps-continue :
      (r : Result A) (f : A → Exec B)
      → ((a : A) → Keeps P (f a))
      → (w : World) → P w.db
      → P (continue r f w).1.db
  Keeps-continue (ok a) f kf w h = (kf a).at w h
  Keeps-continue (err e) f kf w h = h

  pub Keeps-bind :
      (m : Exec A) (f : A → Exec B) → Keeps P m → ((a : A) → Keeps P (f a)) → Keeps P (m >>= f)
  unfolding ◌>>=◌
  Keeps-bind m f km kf = record {
    at = λ w h. let (r, w') = m w in Keeps-continue r f kf w' (km.at w h);
  }

  Keeps-recover :
      (r : Result A) (f : A → Exec B) (g : Error → Exec B)
      → ((a : A) → Keeps P (f a))
      → ((e : Error) → Keeps P (g e))
      → (w : World) → P w.db
      → P (recover r f g w).1.db
  Keeps-recover (ok a) f g kf kg w h = (kf a).at w h
  Keeps-recover (err e) f g kf kg w h = (kg e).at w h

  pub Keeps-attempt :
      (m : Exec A) (f : A → Exec B) (g : Error → Exec B)
      → Keeps P m
      → ((a : A) → Keeps P (f a))
      → ((e : Error) → Keeps P (g e))
      → Keeps P (attempt m f g)
  unfolding attempt
  Keeps-attempt m f g km kf kg = record {
    at = λ w h. let (r, w') = m w in Keeps-recover r f g kf kg w' (km.at w h);
  }

pub ruleset keeps_rules = (
  Keeps-pure, Keeps-raise, Keeps-lift, Keeps-query, Keeps-ask, Keeps-emit, Keeps-if, Keeps-bind,
  Keeps-attempt,
)
