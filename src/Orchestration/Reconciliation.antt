-- ===== src/Orchestration/Reconciliation.antt =====
-- src/factory/orchestration/reconciliation.py: terminal runs that were stored without their task's
-- transition are refreshed, one task after another.
pub mod Counts
use ai_factory_lab.Common.{
  ℕ, ◌+◌, String, Bool, true, false, not, ◌&&◌, ◌||◌, Option, none, some, List, [], ◌∷◌, ◌==◌,
  string_eq, if◌then◌else◌, contains, last?,
}
use ai_factory_lab.Domain.Enums.{TaskStatus, task_status_eq, agent_kind_eq}
use ai_factory_lab.Domain.Models.{Workspace, FactoryTask, AgentRun, is_terminal}
use ai_factory_lab.Domain.Projects.{ProjectRegistry, ProjectProfile, resolve}
use ai_factory_lab.Domain.Errors.{Error, Result, ok, err, project_routing}
use ai_factory_lab.Store.{busy_statuses, find_task}
use ai_factory_lab.Store.Tasks
use ai_factory_lab.Store.Runs.{find_active_run, list_runs}
use ai_factory_lab.Exec.{Ports, Exec, pure, raise, query, ◌>>=◌, ◌>>◌}
use ai_factory_lab.Orchestration.Tracking.{TrackingService}
use ai_factory_lab.Orchestration.Tracking.Refresh.{refresh}

pub record ReconciliationReport : Type 0 where
  pub repaired : ℕ
  pub missing_run : ℕ
  pub active_mismatch : ℕ

-- The service's configuration; `tracking` and the adapter stand in `TrackingService` and `Ports`.
pub record ReconciliationService : Type 0 where
  pub tracking : TrackingService
  pub allows : Option (FactoryTask → Bool)
  pub registry : Option ProjectRegistry

-- What one task adds to the report.
abbrev pub unaffected : ReconciliationReport
unaffected = record { repaired = 0; missing_run = 0; active_mismatch = 0 }

abbrev pub one_repaired : ReconciliationReport
one_repaired = record { repaired = 1; missing_run = 0; active_mismatch = 0 }

abbrev pub one_missing : ReconciliationReport
one_missing = record { repaired = 0; missing_run = 1; active_mismatch = 0 }

abbrev pub one_mismatch : ReconciliationReport
one_mismatch = record { repaired = 0; missing_run = 0; active_mismatch = 1 }

unfoldable pub add_reports : ReconciliationReport → ReconciliationReport → ReconciliationReport
add_reports a b = record {
  repaired = a.repaired + b.repaired;
  missing_run = a.missing_run + b.missing_run;
  active_mismatch = a.active_mismatch + b.active_mismatch;
}

unfoldable pub is_allowed : Option (FactoryTask → Bool) → FactoryTask → Bool
is_allowed none task = true
is_allowed (some allows) task = allows task

unfoldable pub is_misplaced : FactoryTask → Option Workspace → Bool
is_misplaced task none = false
is_misplaced task (some workspace) = not (workspace.repository_slug == task.target_repository)

unfoldable pub compared : TaskStatus → Option FactoryTask → ReconciliationReport
compared before none = unaffected
compared before (some after) = if not (after.status == before) then one_repaired else unaffected

unfoldable pub ready_report : Option AgentRun → ReconciliationReport
ready_report none = unaffected
ready_report (some run) = one_mismatch

module _ (p : Ports) (s : ReconciliationService) where
  -- The newest run of a task that is at work.
  unfoldable pub reconcile_run : FactoryTask → Option AgentRun → Exec ReconciliationReport
  reconcile_run task none = pure one_missing
  reconcile_run task (some run) =
      if not (run.project_id == task.project_id) || is_misplaced task run.workspace
      then pure one_mismatch
      else if not (is_terminal run)
      then pure (if not (task.status == TaskStatus.running) then one_mismatch else unaffected)
      else if not (run.adapter == p.adapter_kind)
      then pure one_mismatch
      else (do
        refresh p s.tracking run.run_id
        after ← query (find_task task.task_id)
        pure (compared task.status after))

  unfoldable pub reconcile_routed : FactoryTask → Exec ReconciliationReport
  reconcile_routed task =
      if task.status == TaskStatus.ready
      then (do active ← query (find_active_run task.task_id); pure (ready_report active))
      else if not (contains busy_statuses task.status)
      then pure unaffected
      else (do history ← query (list_runs task.task_id); reconcile_run task (last? history))

  unfoldable pub routed : FactoryTask → Result ProjectProfile → Exec ReconciliationReport
  routed task (ok profile) = reconcile_routed task
  routed task (err project_routing) = pure one_mismatch
  routed task (err e) = raise e

  unfoldable pub placed : FactoryTask → Option ProjectRegistry → Exec ReconciliationReport
  placed task none = reconcile_routed task
  placed task (some registry) =
      routed task (resolve registry task.project_id (some task.target_repository))

  -- One pass of the loop.
  unfoldable pub reconcile_task : FactoryTask → Exec ReconciliationReport
  reconcile_task task =
      if not (is_allowed s.allows task) then pure unaffected else placed task s.registry

  unfoldable pub reconcile_all : List FactoryTask → Exec ReconciliationReport
  reconcile_all [] = pure unaffected
  reconcile_all (task ∷ tasks) = do
    first ← reconcile_task task
    rest ← reconcile_all tasks
    pure (add_reports first rest)

  -- `ReconciliationService.reconcile`
  unfoldable pub reconcile : Exec ReconciliationReport
  reconcile = do tasks ← query Tasks.list_all; reconcile_all tasks
