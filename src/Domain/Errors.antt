-- ===== src/Domain/Errors.antt =====
-- src/factory/domain/errors.py, with Python's `KeyError` and `ValueError`: what the modelled code
-- raises, and the results of code that may raise. A message that is fixed text or only quotes the
-- fields kept here is left out.
use ai_factory_lab.Common.{String, Bool, true, false, Option, none, some, ◌≡◌, refl, ◌⊎◌, inl, inr}
use ai_factory_lab.Domain.Enums.{TaskStatus}

pub data Error : Type 0 where
  key_error : String → Error
  value_error : Error
  invalid_transition : TaskStatus → TaskStatus → Error
  task_state_changed : String → TaskStatus → TaskStatus → Error
  task_not_ready : String → TaskStatus → Error
  dispatch_conflict : String → Error
  duplicate_task : Error
  duplicate_run : String → Error
  duplicate_pull_request : Error
  workspace_provisioning : String → Error
  agent_dispatch : String → String → Error
  agent_collect : String → String → Error
  persistence_error : Error
  integrity_error : Error
  context_build : Error
  retry_not_allowed : Error
  rework_not_allowed : Error
  project_routing : Error
  task_not_publishable : String → String → Error
  validated_revision_missing : String → String → Error
  pull_request_identity : String → String → Error
  publication_error : Error
  security_review_blocked : Error
  factory_error : Error

-- `isinstance(e, ValueError)`
unfoldable pub is_value_error : Error → Bool
is_value_error value_error = true
is_value_error (invalid_transition from target) = true
is_value_error context_build = true
is_value_error rework_not_allowed = true
is_value_error project_routing = true
is_value_error _ = false

-- `isinstance(e, FactoryError)`
unfoldable pub is_factory_error : Error → Bool
is_factory_error (key_error id) = false
is_factory_error value_error = false
is_factory_error context_build = false
is_factory_error rework_not_allowed = false
is_factory_error project_routing = false
is_factory_error integrity_error = false
is_factory_error security_review_blocked = false
is_factory_error _ = true

pub data Result {ℓ} (A : Type ℓ) : Type ℓ where
  ok : A → Result A
  err : Error → Result A

-- The caller of a dictionary or of a query that may find nothing.
abbrev pub or_raise {ℓ} : {A : Type ℓ} → Error → Option A → Result A
or_raise e none = err e
or_raise e (some a) = ok a

pub Result-cases {ℓ} :
    {A : Type ℓ} (r : Result A) → ((e : Error) × (r ≡ err e)) ⊎ ((a : A) × (r ≡ ok a))
Result-cases (ok a) = inr (a, refl)
Result-cases (err e) = inl (e, refl)
