-- ===== src/Orchestration/Tracking/Refresh/Audited.antt =====
-- What `refresh` of src/factory/orchestration/tracking.py leaves alone, and what it keeps.
use ai_factory_lab.Common.{
  ℕ, String, ◌≡◌, refl, Bool, true, Option, none, some, List, [], ◌∷◌, string_eq, contains, arith,
}
use ai_factory_lab.Domain.Enums.{
  TaskStatus, RunStatus, agent_kind_eq, task_status_eq, run_status_eq,
}
use ai_factory_lab.Domain.Models.{FactoryTask, AgentRun, Workspace, QualityGateSpec, QualityGate}
use ai_factory_lab.Domain.Errors.{Error, Result, ok, err, invalid_transition}
use ai_factory_lab.Store.{Db}
use ai_factory_lab.Store.Runs.{update_run}
use ai_factory_lab.Store.Tasks.Audit.{IsAudited}
use ai_factory_lab.Store.Stable.{IsStable, update_run-stable}
use ai_factory_lab.Store.Stable.Audited.{IsAudited-IsStable}
use ai_factory_lab.Exec.{Ports, World, transact}
use ai_factory_lab.Exec.Keeps.{Keeps, keeps_rules, Keeps-transact, Keeps-bind}
use ai_factory_lab.Orchestration.Transitions.Branches.{transition-Keeps}
use ai_factory_lab.Orchestration.Tracking.{
  TrackingService, specs_for, run_gates, evaluate_by, evaluate_specs, evaluate_gates,
  fingerprint_by, fingerprint, inspect_and_run, repaired_revision, validate_by, validate_revision,
  validate_operational, accept_by,
}
use ai_factory_lab.Orchestration.Tracking.Refresh.{
  refresh, refresh_run, reconcile_terminal, reconcile_latest, result, collected, settle, heartbeats,
  agent_beat, agent_beat_by, validate, validate_for, validate_code, drive_task, drive_to,
  drive_target, terminal_task_target, not_driven, needs_validation, never_validated, can_revalidate,
  revalidate_by, unpublished, none_open, FindOpen,
}

-- The statuses that a refresh drives a task to.
abbrev pub is_driven : TaskStatus → Bool
is_driven =
    contains
      (TaskStatus.validating ∷ TaskStatus.blocked ∷ TaskStatus.failed ∷ TaskStatus.cancelled ∷ [])

abbrev is_some_driven : Option TaskStatus → Bool
is_some_driven none = true
is_some_driven (some target) = is_driven target

terminal_target-driven : (status : RunStatus) → is_some_driven (terminal_task_target status) ≡ true
unfolding terminal_task_target
terminal_target-driven RunStatus.succeeded = refl
terminal_target-driven RunStatus.failed = refl
terminal_target-driven RunStatus.cancelled = refl
terminal_target-driven _ = refl

drive_target-driven :
    (run : AgentRun) (correction : Bool) → is_some_driven (drive_target run correction) ≡ true
unfolding drive_target
drive_target-driven run correction = ground (arith, terminal_target-driven run.status)

module _ {P : Db → Type 0} (stable : IsStable is_driven P) (p : Ports) (s : TrackingService) where
  specs_for-Keeps : (run : AgentRun) → Keeps P (specs_for s run)
  unfolding specs_for
  specs_for-Keeps run = search keeps_rules

  run_gates-Keeps :
      (runner : ℕ → QualityGateSpec → Workspace → Result QualityGate) (specs : List QualityGateSpec)
      (workspace : Workspace)
      → Keeps P (run_gates runner specs workspace)
  unfolding run_gates
  run_gates-Keeps runner [] workspace = search keeps_rules
  run_gates-Keeps runner (spec ∷ specs) workspace = Keeps-bind _ _ (search keeps_rules) (λ reply.
      Keeps-bind _ _ (search keeps_rules) (λ gate.
        Keeps-bind _ _ (run_gates-Keeps runner specs workspace) (λ rest. search keeps_rules)))

  evaluate_by-Keeps :
      (workspace : Option Workspace)
      (runner : Option (ℕ → QualityGateSpec → Workspace → Result QualityGate))
      (specs : List QualityGateSpec)
      → Keeps P (evaluate_by workspace runner specs)
  unfolding evaluate_by
  evaluate_by-Keeps (some workspace) (some runner) specs = run_gates-Keeps runner specs workspace
  evaluate_by-Keeps _ _ specs = search keeps_rules

  evaluate_gates-Keeps : (run : AgentRun) → Keeps P (evaluate_gates p s run)
  unfolding evaluate_gates evaluate_specs
  evaluate_gates-Keeps run = search (keeps_rules, specs_for-Keeps, evaluate_by-Keeps)

  fingerprint_by-Keeps :
      (inspect : Option (ℕ → Workspace → Option String)) (workspace : Workspace)
      → Keeps P (fingerprint_by inspect workspace)
  unfolding fingerprint_by
  fingerprint_by-Keeps none workspace = search keeps_rules
  fingerprint_by-Keeps (some inspect) workspace = search keeps_rules

  fingerprint-Keeps : (workspace : Workspace) → Keeps P (fingerprint p workspace)
  unfolding fingerprint
  fingerprint-Keeps workspace = fingerprint_by-Keeps p.fingerprint workspace

  inspect_and_run-Keeps :
      (run : AgentRun) (workspace : Workspace) (before : Option String)
      → Keeps P (inspect_and_run p s run workspace before)
  unfolding inspect_and_run
  inspect_and_run-Keeps run workspace none = search keeps_rules
  inspect_and_run-Keeps run workspace (some before) =
      search (keeps_rules, evaluate_gates-Keeps, fingerprint-Keeps)

  repaired_revision-Keeps :
      (run : AgentRun) (task : FactoryTask) (workspace : Workspace) (reply : Result Workspace)
      → Keeps P (repaired_revision p s run task workspace reply)
  unfolding repaired_revision
  repaired_revision-Keeps run task workspace (err e) = search keeps_rules
  repaired_revision-Keeps run task workspace (ok repaired) =
      search (keeps_rules, fingerprint-Keeps, inspect_and_run-Keeps)

  validate_by-Keeps :
      (run : AgentRun) (workspace : Option Workspace) (task : Option FactoryTask)
      (repair : Option (ℕ → FactoryTask → Workspace → Result Workspace))
      → Keeps P (validate_by p s run workspace task repair)
  unfolding validate_by
  validate_by-Keeps run (some workspace) (some task) (some repair) =
      search (keeps_rules, repaired_revision-Keeps)
  validate_by-Keeps run _ _ _ = search keeps_rules

  validate_revision-Keeps : (run : AgentRun) → Keeps P (validate_revision p s run)
  unfolding validate_revision
  validate_revision-Keeps run = search (keeps_rules, validate_by-Keeps)

  accept_by-Keeps :
      (accept : Option (ℕ → FactoryTask → AgentRun → Option (List QualityGate)))
      (task : FactoryTask) (run : AgentRun)
      → Keeps P (accept_by accept task run)
  unfolding accept_by
  accept_by-Keeps none task run = search keeps_rules
  accept_by-Keeps (some accept) task run = search keeps_rules

  validate_operational-Keeps :
      (task : FactoryTask) (run : AgentRun) → Keeps P (validate_operational p task run)
  unfolding validate_operational
  validate_operational-Keeps task run = accept_by-Keeps p.accept_operational task run

  validate_for-Keeps :
      (run : AgentRun) (task : Option FactoryTask) → Keeps P (validate_for p s run task)
  unfolding validate_for validate_code
  validate_for-Keeps run none = search (keeps_rules, validate_revision-Keeps)
  validate_for-Keeps run (some task) =
      search (keeps_rules, validate_revision-Keeps, validate_operational-Keeps)

  validate-Keeps : (run : AgentRun) → Keeps P (validate p s run)
  unfolding validate
  validate-Keeps run = search (keeps_rules, validate_for-Keeps)

  none_open-Keeps :
      (task : FactoryTask) (workspace : Workspace) (find_open : FindOpen)
      → Keeps P (none_open s task workspace find_open)
  unfolding none_open
  none_open-Keeps task workspace find_open = search keeps_rules

  unpublished-Keeps : (run : AgentRun) (workspace : Workspace) → Keeps P (unpublished run workspace)
  unfolding unpublished
  unpublished-Keeps run workspace = search keeps_rules

  revalidate_by-Keeps :
      (run : AgentRun) (task : Option FactoryTask) (workspace : Option Workspace)
      (find_open : Option FindOpen)
      → Keeps P (revalidate_by s run task workspace find_open)
  unfolding revalidate_by
  revalidate_by-Keeps run (some task) (some workspace) (some find_open) =
      search (keeps_rules, unpublished-Keeps, none_open-Keeps)
  revalidate_by-Keeps run _ _ _ = search keeps_rules

  needs_validation-Keeps : (run : AgentRun) → Keeps P (needs_validation p s run)
  unfolding needs_validation never_validated can_revalidate
  needs_validation-Keeps run = search (keeps_rules, specs_for-Keeps, revalidate_by-Keeps)

  not_driven-Keeps : (e : Error) → Keeps P (not_driven e)
  unfolding not_driven
  not_driven-Keeps (invalid_transition from target) = search keeps_rules
  not_driven-Keeps e = search keeps_rules

  drive_to-Keeps :
      (task_id : String) (target : Option TaskStatus) (task : Option FactoryTask)
      → is_some_driven target ≡ true
      → Keeps P (drive_to p task_id target task)
  unfolding drive_to
  drive_to-Keeps task_id none task driven = search keeps_rules
  drive_to-Keeps task_id (some target) none driven = search keeps_rules
  drive_to-Keeps task_id (some target) (some task) driven =
      search
        (keeps_rules, transition-Keeps stable.applied p task_id target driven, not_driven-Keeps)

  driven-Keeps :
      (run : AgentRun) (correction : Bool) (task : Option FactoryTask)
      → Keeps P (drive_to p run.task_id (drive_target run correction) task)
  driven-Keeps run correction task =
      drive_to-Keeps run.task_id (drive_target run correction) task
        (drive_target-driven run correction)

  drive_task-Keeps : (run : AgentRun) → Keeps P (drive_task p run)
  unfolding drive_task
  drive_task-Keeps run = search (keeps_rules, driven-Keeps)

  result-Keeps : (run : AgentRun) → Keeps P (result run)
  unfolding result
  result-Keeps run = search keeps_rules

  stored-Keeps : (run : AgentRun) → Keeps P (transact (update_run run))
  stored-Keeps run = Keeps-transact _ (λ db. update_run-stable stable run db)

  reconcile_latest-Keeps : (run : AgentRun) → Keeps P (reconcile_latest p s run)
  unfolding reconcile_latest
  reconcile_latest-Keeps run =
      search
        (
          keeps_rules, needs_validation-Keeps, validate-Keeps, stored-Keeps, drive_task-Keeps,
          result-Keeps,
        )
        depth 12

  reconcile_terminal-Keeps : (run : AgentRun) → Keeps P (reconcile_terminal p s run)
  unfolding reconcile_terminal
  reconcile_terminal-Keeps run = search (keeps_rules, reconcile_latest-Keeps, result-Keeps)

  agent_beat_by-Keeps :
      (read : Option (ℕ → AgentRun → Option ℕ)) (now : ℕ) (run : AgentRun)
      → Keeps P (agent_beat_by read s now run)
  unfolding agent_beat_by
  agent_beat_by-Keeps none now run = search keeps_rules
  agent_beat_by-Keeps (some read) now run = search keeps_rules

  heartbeats-Keeps : (run : AgentRun) → Keeps P (heartbeats p s run)
  unfolding heartbeats agent_beat
  heartbeats-Keeps run = search (keeps_rules, agent_beat_by-Keeps)

  settle-Keeps : (run : AgentRun) → Keeps P (settle p s run)
  unfolding settle
  settle-Keeps run =
      search
        (
          keeps_rules, heartbeats-Keeps, validate-Keeps, stored-Keeps, drive_task-Keeps,
          result-Keeps,
        )
        depth 12

  collected-Keeps : (run : AgentRun) (reply : Option AgentRun) → Keeps P (collected p s run reply)
  unfolding collected
  collected-Keeps run none = search keeps_rules
  collected-Keeps run (some observed) = settle-Keeps observed

  refresh_run-Keeps : (run : AgentRun) → Keeps P (refresh_run p s run)
  unfolding refresh_run
  refresh_run-Keeps run = search (keeps_rules, reconcile_terminal-Keeps, collected-Keeps) depth 8

pub refresh-Keeps :
    {P : Db → Type 0} (stable : IsStable is_driven P) (p : Ports) (s : TrackingService)
    (run_id : String)
    → Keeps P (refresh p s run_id)
unfolding refresh
refresh-Keeps stable p s run_id = search (keeps_rules, refresh_run-Keeps stable)

-- A refresh, whatever the adapter, the gates and the providers answer and whether it returns or
-- raises, keeps each task's history leading, row by row, from the status it was created in to its status.
pub refresh-IsAudited :
    (created : String → TaskStatus) (p : Ports) (s : TrackingService) (run_id : String) (w : World)
    → IsAudited created w.db
    → IsAudited created (refresh p s run_id w).1.db
refresh-IsAudited created p s run_id w audited =
    (refresh-Keeps (IsAudited-IsStable is_driven created) p s run_id).at w audited
