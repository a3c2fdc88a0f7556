-- ===== src/Orchestration/Publication.antt =====
-- src/factory/orchestration/publication.py: a validated run is pushed, its pull request is opened
-- or recovered, and the task is handed to a human.
pub mod Guards
pub mod Pulls
pub mod Kept
pub mod Refined
pub mod Placed
pub mod Outcomes
use Prim.Native.Char.{Char}
use ai_factory_lab.Common.{
  ℕ, String, Bool, true, false, not, ◌&&◌, ◌||◌, Option, none, some, List, [], ◌∷◌, ◌==◌, nat_eq,
  string_eq, option_eq, is_some, is_none, is_blank, any, contains, if◌then◌else◌,
}
use ai_factory_lab.Domain.Enums.{
  TaskStatus, RunStatus, ValidationOutcome, task_status_eq, run_status_eq, validation_outcome_eq,
}
use ai_factory_lab.Domain.Models.{
  Workspace, FactoryTask, AgentRun, PullRequest, PublishedRevision, validation_outcome,
}
use ai_factory_lab.Domain.Projects.{ProjectRegistry, resolve}
use ai_factory_lab.Domain.Errors.{
  Error, Result, ok, err, or_raise, key_error, invalid_transition, task_state_changed,
  project_routing, duplicate_pull_request, task_not_publishable, validated_revision_missing,
  pull_request_identity, security_review_blocked,
}
use ai_factory_lab.Store.{Db, find_task}
use ai_factory_lab.Store.Runs.{get_run, list_runs}
use ai_factory_lab.Store.Pulls.{get_for_run, find_by_branch, save_pull, record_revision}
use ai_factory_lab.Exec.{
  Ports, Exec, published, opened, pure, raise, lift, query, ask, transact, emit, ◌>>=◌, ◌>>◌,
  attempt,
}
use ai_factory_lab.Orchestration.Transitions.{require_task, transition}
use ai_factory_lab.Orchestration.Tracking.Refresh.{is_latest_run}
use ai_factory_lab.Orchestration.Texts.{
  TextService, bounded_title, build_pull_request_body, with_factory_metadata,
}
use ai_factory_lab.Orchestration.Publication.Guards.{
  SecurityFinding, SecurityReview, is_critical, PublicationService, PublicationResult,
  protected_branches, base_ref_for, is_validated, unpublishable, misidentified, own_run,
  require_run, off_default, check_workspace, require_publishable, overridden, reviewed,
  security_review, push,
}
use ai_factory_lab.Orchestration.Publication.Pulls.{
  but_last, require_provider_identity, is_review_of, earlier_pull, rework_pull_request,
  is_persisted_for, persisted_pull, existing_pull_request, revise_found, revise, requested,
  confirmed, resolved, resolve_pull_request, stored_matches, recovered, own_pull, stored_for,
  not_saved, persist,
}

-- The handler of `_apply`: another writer was first.
unfoldable pub already_applied : Error → Exec (Unit {0})
already_applied (invalid_transition from target) = pure tt
already_applied (task_state_changed task_id expected actual) = pure tt
already_applied e = raise e

-- `_apply`, where the task is in the status that it is for.
unfoldable pub step_from : Ports → String → TaskStatus → TaskStatus → Option FactoryTask → Exec Bool
step_from p task_id from target none = pure false
step_from p task_id from target (some task) =
    if task.status == from
    then attempt (transition p task_id target none) (λ _. pure tt) already_applied >> pure true
    else pure false

unfoldable pub stored_status : Option FactoryTask → TaskStatus
stored_status none = TaskStatus.validating
stored_status (some task) = task.status

-- `_reconcile`
unfoldable pub reconcile_published : Ports → String → Exec (TaskStatus × Bool)
reconcile_published p task_id = do
  task ← require_task task_id
  first ← step_from p task_id TaskStatus.validating TaskStatus.pr_open (some task)
  found ← query (find_task task_id)
  second ← step_from p task_id TaskStatus.pr_open TaskStatus.waiting_human found
  current ← query (find_task task_id)
  pure (stored_status current, first || second)

-- The end of every successful `publish`.
unfoldable pub concluded : Ports → FactoryTask → PullRequest → Exec PublicationResult
concluded p task pr = do
  outcome ← reconcile_published p task.task_id
  pure (record { pull_request = pr; task_status = outcome.0; opened_now = outcome.1 })

module _ (p : Ports) (s : PublicationService) (task : FactoryTask) (run : AgentRun)
    (workspace : Workspace) where
  unfoldable pub publish_existing : Option PullRequest → Exec PublicationResult
  publish_existing (some existing) = concluded p task existing
  publish_existing none =
      if not (task.status == TaskStatus.validating)
      then unpublishable task run
      else if not (is_validated run)
      then raise (validated_revision_missing task.task_id run.run_id)
      else (do
        revision ← push s task run
        pr ← resolve_pull_request s task run workspace p revision
        persisted ← persist pr
        concluded p task persisted)

  unfoldable pub publish_rework : Option PullRequest → Exec PublicationResult
  publish_rework (some rework) = do
    pr ←
        if task.status == TaskStatus.validating
        then revise s task run workspace rework
        else pure rework
    concluded p task pr
  publish_rework none = do
    existing ← existing_pull_request s task run workspace
    publish_existing existing

-- `publish` once the task and the run are read.
unfoldable pub publish_run :
    Ports → PublicationService → FactoryTask → AgentRun → Exec PublicationResult
publish_run p s task run = do
  workspace ← require_publishable s task run
  security_review s task run
  rework ← rework_pull_request s task run workspace
  publish_rework p s task run workspace rework

-- `PublicationService.publish`
unfoldable pub publish : Ports → PublicationService → String → String → Exec PublicationResult
publish p s task_id run_id = do
  task ← require_task task_id
  run ← require_run run_id task_id
  publish_run p s task run
