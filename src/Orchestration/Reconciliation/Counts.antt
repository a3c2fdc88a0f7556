-- ===== src/Orchestration/Reconciliation/Counts.antt =====
-- The report of `reconcile` in src/factory/orchestration/reconciliation.py, and what a pass keeps.
use ai_factory_lab.Common.{ℕ, ◌+◌, ◌≤◌, String, Option, none, some, List, [], ◌∷◌, string_eq}
use ai_factory_lab.Domain.Enums.{TaskStatus, task_status_eq, agent_kind_eq}
use ai_factory_lab.Domain.Models.{FactoryTask, AgentRun}
use ai_factory_lab.Domain.Projects.{ProjectRegistry, ProjectProfile}
use ai_factory_lab.Domain.Errors.{Result, ok, err, project_routing}
use ai_factory_lab.Store.Tasks
use ai_factory_lab.Store.{Db}
use ai_factory_lab.Store.Stable.{IsStable}
use ai_factory_lab.Store.Stable.Audited.{IsAudited-IsStable}
use ai_factory_lab.Store.Stable.Lifecycles.{Refines, Refines-refl, Refines-IsStable}
use ai_factory_lab.Store.Tasks.Audit.{IsAudited}
use ai_factory_lab.Exec.{Ports, World, Exec}
use ai_factory_lab.Exec.Keeps.{Keeps, keeps_rules, Keeps-bind, Keeps-pure}
use ai_factory_lab.Exec.Ensures.{Ensures}
use ai_factory_lab.Orchestration.Tracking.Refresh.Audited.{is_driven, refresh-Keeps}
use ai_factory_lab.Orchestration.Reconciliation.{
  ReconciliationReport, ReconciliationService, reconcile_run, reconcile_routed, routed, placed,
  reconcile_task, reconcile_all, reconcile,
}

abbrev total : ReconciliationReport → ℕ
total report = report.repaired + report.missing_run + report.active_mismatch

abbrev AtMostOne : Exec ReconciliationReport → Type 0
AtMostOne = Ensures (λ report. total report ≤ 1)

module _ {P : Db → Type 0} (stable : IsStable is_driven P) (p : Ports)
    (s : ReconciliationService) where
  reconcile_run-Keeps :
      (task : FactoryTask) (run : Option AgentRun) → Keeps P (reconcile_run p s task run)
  unfolding reconcile_run
  reconcile_run-Keeps task none = search keeps_rules
  reconcile_run-Keeps task (some run) =
      search (keeps_rules, refresh-Keeps stable p s.tracking) depth 10

  reconcile_routed-Keeps : (task : FactoryTask) → Keeps P (reconcile_routed p s task)
  unfolding reconcile_routed
  reconcile_routed-Keeps task = search (keeps_rules, reconcile_run-Keeps) depth 10

  routed-Keeps :
      (task : FactoryTask) (profile : Result ProjectProfile) → Keeps P (routed p s task profile)
  unfolding routed
  routed-Keeps task (ok profile) = reconcile_routed-Keeps task
  routed-Keeps task (err project_routing) = search keeps_rules
  routed-Keeps task (err e) = search keeps_rules

  placed-Keeps :
      (task : FactoryTask) (registry : Option ProjectRegistry) → Keeps P (placed p s task registry)
  unfolding placed
  placed-Keeps task none = reconcile_routed-Keeps task
  placed-Keeps task (some registry) = routed-Keeps task _

  reconcile_task-Keeps : (task : FactoryTask) → Keeps P (reconcile_task p s task)
  unfolding reconcile_task
  reconcile_task-Keeps task = search (keeps_rules, placed-Keeps)

  reconcile_all-Keeps : (tasks : List FactoryTask) → Keeps P (reconcile_all p s tasks)
  unfolding reconcile_all
  reconcile_all-Keeps [] = search keeps_rules
  reconcile_all-Keeps (task ∷ tasks) =
      Keeps-bind (reconcile_task p s task) _ (reconcile_task-Keeps task) (λ first.
        Keeps-bind (reconcile_all p s tasks) _ (reconcile_all-Keeps tasks) (λ rest. Keeps-pure _))

pub reconcile-Keeps :
    {P : Db → Type 0} (stable : IsStable is_driven P) (p : Ports) (s : ReconciliationService)
    → Keeps P (reconcile p s)
unfolding reconcile
reconcile-Keeps stable p s = search (keeps_rules, reconcile_all-Keeps stable)

-- A reconciliation, whether it returns or raises midway, keeps each task's history leading from the
-- status it was created in to its status.
pub reconcile-IsAudited :
    (created : String → TaskStatus) (p : Ports) (s : ReconciliationService) (w : World)
    → IsAudited created w.db
    → IsAudited created (reconcile p s w).1.db
reconcile-IsAudited created p s w audited =
    (reconcile-Keeps (IsAudited-IsStable is_driven created) p s).at w audited

-- A reconciliation of the whole factory, whatever the ports answer and whether it returns or raises
-- midway, loses no task and only appends to the history; each row that it appends is an edge of the
-- normal graph into VALIDATING, BLOCKED, FAILED or CANCELLED, and each task's appended rows lead, one
-- after the other, from the status that it had to the status that it is stored in.
pub reconcile-Refines :
    (p : Ports) (s : ReconciliationService) (w : World)
    → Refines is_driven w.db (reconcile p s w).1.db
reconcile-Refines p s w =
    (reconcile-Keeps (Refines-IsStable is_driven w.db) p s).at w (Refines-refl is_driven w.db)
