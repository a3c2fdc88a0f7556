-- ===== src/Orchestration/Publication/Guards.antt =====
-- src/factory/orchestration/publication.py: what is asked of a task and a run before anything is
-- published, and the push.
use ai_factory_lab.Common.{
  ℕ, String, Bool, true, false, not, ◌||◌, Option, none, some, List, [], ◌∷◌, ◌==◌, nat_eq,
  string_eq, option_eq, is_blank, contains, if◌then◌else◌,
}
use ai_factory_lab.Domain.Enums.{
  TaskStatus, RunStatus, ValidationOutcome, task_status_eq, run_status_eq, validation_outcome_eq,
}
use ai_factory_lab.Domain.Models.{
  Workspace, FactoryTask, AgentRun, PullRequest, PublishedRevision, validation_outcome,
}
use ai_factory_lab.Domain.Projects.{ProjectRegistry, resolve}
use ai_factory_lab.Domain.Errors.{
  Result, ok, err, or_raise, key_error, project_routing, task_not_publishable,
  pull_request_identity, security_review_blocked,
}
use ai_factory_lab.Store.Runs.{get_run, list_runs}
use ai_factory_lab.Exec.{Exec, published, pure, raise, lift, query, ask, emit, ◌>>=◌, ◌>>◌}
use ai_factory_lab.Orchestration.Tracking.Refresh.{is_latest_run}
use ai_factory_lab.Orchestration.Texts.{TextService}

-- src/factory/domain/security.py
pub record SecurityFinding : Type 0 where
  pub rule_id : String
  pub path_digest : String
  pub line : ℕ

pub record SecurityReview : Type 0 where
  pub rule_version : String
  pub revision : String
  pub findings : List SecurityFinding

unfoldable pub is_critical : SecurityReview → Bool
is_critical review = elim review.findings [ [] ↦ false | _ ↦ true ]

-- The service's configuration and its ports: the security review and its override, `none` where
-- they raise; the publisher, which pushes; the provider's search and its opening of a pull request.
pub record PublicationService : Type 0 where
  pub texts : TextService
  pub base_branch : String
  pub registry : Option ProjectRegistry
  pub review : ℕ → FactoryTask → AgentRun → Option SecurityReview
  pub is_overridden : ℕ → FactoryTask → AgentRun → SecurityReview → Option Bool
  pub publish_workspace : ℕ → FactoryTask → AgentRun → Result PublishedRevision
  pub find_open_pull_request : ℕ → String → String → String → Result (Option PullRequest)
  pub open_pull_request : ℕ → PullRequest → Result PullRequest

pub record PublicationResult : Type 0 where
  pub pull_request : PullRequest
  pub task_status : TaskStatus
  pub opened_now : Bool

abbrev pub protected_branches : List String
protected_branches = "main" ∷ "master" ∷ []

-- `_base_for`
unfoldable pub base_ref_for : PublicationService → FactoryTask → Result String
base_ref_for s task = elim s.registry [
  | none ↦ ok s.base_branch
  | some registry ↦ elim (resolve registry task.project_id (some task.target_repository)) [
    | err e ↦ err e
    | ok profile ↦ ok profile.base_ref
  ]
]

-- `bool(_validated_revision(run))`
unfoldable pub is_validated : AgentRun → Bool
is_validated run = elim run.validated_revision [ none ↦ false | some sha ↦ not (is_blank sha) ]

abbrev pub unpublishable : {A : Type 0} → FactoryTask → AgentRun → Exec A
unpublishable task run = raise (task_not_publishable task.task_id run.run_id)

abbrev pub misidentified : {A : Type 0} → FactoryTask → AgentRun → Exec A
misidentified task run = raise (pull_request_identity task.task_id run.run_id)

-- `_require_run`
unfoldable pub own_run : String → AgentRun → Exec AgentRun
own_run task_id run =
    if not (run.task_id == task_id)
    then raise (task_not_publishable task_id run.run_id)
    else pure run

unfoldable pub require_run : String → String → Exec AgentRun
require_run run_id task_id = do
  found ← query (get_run run_id)
  run ← lift (or_raise (key_error run_id) found)
  own_run task_id run

module _ (s : PublicationService) (task : FactoryTask) (run : AgentRun) where
  unfoldable pub off_default : Workspace → Result String → Exec Workspace
  off_default workspace (ok base) =
      if contains protected_branches workspace.branch || workspace.branch == base
      then unpublishable task run
      else pure workspace
  off_default workspace (err project_routing) = unpublishable task run
  off_default workspace (err e) = raise e

  unfoldable pub check_workspace : Option Workspace → Exec Workspace
  check_workspace none = unpublishable task run
  check_workspace (some workspace) =
      if not (run.project_id == task.project_id)
        || not (workspace.repository_slug == task.target_repository)
      then unpublishable task run
      else off_default workspace (base_ref_for s task)

  -- `_require_publishable`; the workspace that it found is used from then on.
  unfoldable pub require_publishable : Exec Workspace
  require_publishable = do
    runs ← query (list_runs run.task_id)
    if not (is_latest_run run runs)
        then unpublishable task run
        else if not (run.status == RunStatus.succeeded)
        then unpublishable task run
        else if not (validation_outcome run == ValidationOutcome.ready_for_next_phase)
        then unpublishable task run
        else check_workspace run.workspace

  unfoldable pub overridden : Option Bool → Exec (Unit {0})
  overridden (some true) = pure tt
  overridden _ = raise security_review_blocked

  unfoldable pub reviewed : Option SecurityReview → Exec (Unit {0})
  reviewed none = raise security_review_blocked
  reviewed (some review) =
      if is_critical review
      then (do reply ← ask (λ n. s.is_overridden n task run review); overridden reply)
      else pure tt

  -- What `publish` does for the security review.
  unfoldable pub security_review : Exec (Unit {0})
  security_review =
      if task.status == TaskStatus.waiting_human
      then pure tt
      else (do reply ← ask (λ n. s.review n task run); reviewed reply)

  unfoldable pub push : Exec PublishedRevision
  push = do
    emit (published task.task_id run.run_id)
    reply ← ask (λ n. s.publish_workspace n task run)
    lift reply
