-- ===== src/Exec.antt =====
-- The services of src/factory/orchestration run over the database and over ports
-- (src/factory/domain/ports.py and the adapter protocols of src/factory/domain/models.py). A method
-- that may raise is an action of `Exec`: what was committed before a raise stays committed.
-- Every answer from outside, the clock and fresh identifiers included, may depend on the moment: an
-- action that asks a port takes the next moment.
pub mod Keeps
pub mod Ensures
use ai_factory_lab.Common.{ℕ, suc, String, Bool, Option, List, ◌∷◌, [], ◌++◌}
use ai_factory_lab.Domain.Enums.{AgentKind}
use ai_factory_lab.Domain.Models.{
  Workspace, FactoryTask, AgentRun, ContextPack, QualityGate, QualityGateSpec, PullRequest,
}
use ai_factory_lab.Domain.Errors.{Error, Result, ok, err}
use ai_factory_lab.Store.{Db, Transaction}

-- The ports that dispatch and tracking call. `none` and `err` stand for a raised exception, and an
-- optional port for one that is not configured.
pub record Ports : Type 0 where
  pub now : ℕ → ℕ
  pub uuid : ℕ → String
  pub max_active_claims : ℕ
  pub adapter_kind : AgentKind
  pub start : ℕ → FactoryTask → Workspace → ContextPack → Option AgentRun
  pub collect : ℕ → AgentRun → Option AgentRun
  pub read_agent_heartbeat : Option (ℕ → AgentRun → Option ℕ)
  pub build_context : ℕ → FactoryTask → Option String → Option ContextPack → Result ContextPack
  pub prepare : ℕ → FactoryTask → Workspace → Result Workspace
  pub repair : Option (ℕ → FactoryTask → Workspace → Result Workspace)
  pub fingerprint : Option (ℕ → Workspace → Option String)
  pub run_gate : Option (ℕ → QualityGateSpec → Workspace → Result QualityGate)
  pub find_open_pull_request : Option (ℕ → String → String → String → Result (Option PullRequest))
  pub accept_operational : Option (ℕ → FactoryTask → AgentRun → Option (List QualityGate))

-- A call of a port that changes the world outside.
pub data Effect : Type 0 where
  prepared : String → String → Effect
  started : String → String → Effect
  published : String → String → Effect
  opened : String → String → Effect

pub record World : Type 0 where
  pub db : Db
  pub tick : ℕ
  pub effects : List Effect

abbrev pub Exec {ℓ} : Type ℓ → Type ℓ
Exec A = World → Result A × World

module _ {ℓ} {A : Type ℓ} where
  unfoldable pub pure : A → Exec A
  pure a w = (ok a, w)

  unfoldable pub raise : Error → Exec A
  raise e w = (err e, w)

  unfoldable pub lift : Result A → Exec A
  lift r w = (r, w)

  -- A query: one read transaction.
  unfoldable pub query : (Db → A) → Exec A
  query f w = (ok (f w.db), w)

  unfoldable pub ask : (ℕ → A) → Exec A
  ask f w = (ok (f w.tick), record w { tick = suc w.tick })

  unfoldable pub transact : Transaction A → Exec A
  transact t w = let (r, db') = t w.db in (r, record w { db = db' })

unfoldable pub emit : Effect → Exec (Unit {0})
emit e w = (ok tt, record w { effects = w.effects ++ e ∷ [] })

module _ {ℓ κ} {A : Type ℓ} {B : Type κ} where
  abbrev pub continue : Result A → (A → Exec B) → Exec B
  continue (ok a) f w = f a w
  continue (err e) f w = (err e, w)

  infixl 5 ◌>>=◌
  -- opening this opens the actions above too
  unfoldable pub ◌>>=◌ : Exec A → (A → Exec B) → Exec B
  unfolding pure raise lift query ask transact emit
  ◌>>=◌ m f w = let (r, w') = m w in continue r f w'

  -- `try: ... except`: the handler gets the error and the state that was left.
  abbrev pub recover : Result A → (A → Exec B) → (Error → Exec B) → Exec B
  recover (ok a) f g w = f a w
  recover (err e) f g w = g e w

  unfoldable pub attempt : Exec A → (A → Exec B) → (Error → Exec B) → Exec B
  unfolding pure raise lift query ask transact emit
  attempt m f g w = let (r, w') = m w in recover r f g w'

module _ {ℓ} {B : Type ℓ} where
  infixl 5 ◌>>◌
  abbrev pub ◌>>◌ : {A : Type 0} → Exec A → Exec B → Exec B
  m >> k = m >>= λ _. k
