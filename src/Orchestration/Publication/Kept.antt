-- ===== src/Orchestration/Publication/Kept.antt =====
-- What `publish` of src/factory/orchestration/publication.py keeps of the database.
use ai_factory_lab.Common.{
  contains, [], ◌∷◌, ◌≡◌, refl, String, Bool, true, false, Option, none, some, option_eq, string_eq,
}
use ai_factory_lab.Domain.Enums.{TaskStatus, task_status_eq}
use ai_factory_lab.Domain.Models.{Workspace, FactoryTask, AgentRun, PullRequest, PublishedRevision}
use ai_factory_lab.Domain.Errors.{
  Error, Result, ok, err, project_routing, duplicate_pull_request, invalid_transition,
  task_state_changed,
}
use ai_factory_lab.Store.{Db}
use ai_factory_lab.Store.Stable.{KeptByApply}
use ai_factory_lab.Store.Pulls.{save_pull, record_revision}
use ai_factory_lab.Exec.{Ports, transact}
use ai_factory_lab.Exec.Keeps.{Keeps, keeps_rules, Keeps-transact, Keeps-attempt}
use ai_factory_lab.Orchestration.Transitions.Branches.{transition-Keeps, require_task-Keeps}
use ai_factory_lab.Orchestration.Publication.Guards.{
  SecurityReview, PublicationService, own_run, require_run, off_default, check_workspace,
  require_publishable, overridden, reviewed, security_review, push,
}
use ai_factory_lab.Orchestration.Publication.Pulls.{
  require_provider_identity, earlier_pull, rework_pull_request, persisted_pull,
  existing_pull_request, revise_found, revise, confirmed, resolved, resolve_pull_request, recovered,
  not_saved, persist,
}
use ai_factory_lab.Orchestration.Publication.{
  already_applied, step_from, reconcile_published, concluded, publish_existing, publish_rework,
  publish_run, publish,
}

-- The statuses that a publication moves a task to.
abbrev pub is_handed : TaskStatus → Bool
is_handed = contains (TaskStatus.pr_open ∷ TaskStatus.waiting_human ∷ [])

-- A property of the database that every write of a publication keeps.
pub record IsPublishStable (P : Db → Type 0) : Type 0 where
  pub applied : KeptByApply is_handed P
  pub saved : (pr : PullRequest) (db : Db) → P db → P (save_pull pr db).1
  pub revised :
      (pr : PullRequest) (run_id commit_sha : String) (db : Db)
      → P db
      → P (record_revision pr run_id commit_sha db).1

module _ {P : Db → Type 0} (stable : IsPublishStable P) (s : PublicationService)
    (task : FactoryTask) (run : AgentRun) where
  off_default-Keeps :
      (workspace : Workspace) (base : Result String)
      → Keeps P (off_default s task run workspace base)
  unfolding off_default
  off_default-Keeps workspace (ok base) = search keeps_rules
  off_default-Keeps workspace (err project_routing) = search keeps_rules
  off_default-Keeps workspace (err e) = search keeps_rules

  check_workspace-Keeps :
      (workspace : Option Workspace) → Keeps P (check_workspace s task run workspace)
  unfolding check_workspace
  check_workspace-Keeps none = search keeps_rules
  check_workspace-Keeps (some workspace) = search (keeps_rules, off_default-Keeps)

  require_publishable-Keeps : Keeps P (require_publishable s task run)
  unfolding require_publishable
  require_publishable-Keeps = search (keeps_rules, check_workspace-Keeps) depth 8

  overridden-Keeps : (reply : Option Bool) → Keeps P (overridden s task run reply)
  unfolding overridden
  overridden-Keeps (some true) = search keeps_rules
  overridden-Keeps (some false) = search keeps_rules
  overridden-Keeps none = search keeps_rules

  reviewed-Keeps : (reply : Option SecurityReview) → Keeps P (reviewed s task run reply)
  unfolding reviewed
  reviewed-Keeps none = search keeps_rules
  reviewed-Keeps (some review) = search (keeps_rules, overridden-Keeps)

  security_review-Keeps : Keeps P (security_review s task run)
  unfolding security_review
  security_review-Keeps = search (keeps_rules, reviewed-Keeps)

  push-Keeps : Keeps P (push s task run)
  unfolding push
  push-Keeps = search keeps_rules

  module _ (workspace : Workspace) where
    identity-Keeps :
        (pr : PullRequest) (head : String)
        → Keeps P (require_provider_identity s task run workspace pr head)
    unfolding require_provider_identity
    identity-Keeps pr head = search keeps_rules

    earlier_pull-Keeps :
        (prior : Option PullRequest) → Keeps P (earlier_pull s task run workspace prior)
    unfolding earlier_pull
    earlier_pull-Keeps none = search keeps_rules
    earlier_pull-Keeps (some prior) = search keeps_rules depth 8

    rework_pull_request-Keeps : Keeps P (rework_pull_request s task run workspace)
    unfolding rework_pull_request
    rework_pull_request-Keeps = search (keeps_rules, earlier_pull-Keeps)

    persisted_pull-Keeps :
        (found : Option PullRequest) → Keeps P (persisted_pull s task run workspace found)
    unfolding persisted_pull
    persisted_pull-Keeps none = search keeps_rules
    persisted_pull-Keeps (some pr) = search keeps_rules

    existing_pull_request-Keeps : Keeps P (existing_pull_request s task run workspace)
    unfolding existing_pull_request
    existing_pull_request-Keeps = search (keeps_rules, persisted_pull-Keeps)

    recorded-Keeps :
        (pr : PullRequest) (run_id commit_sha : String)
        → Keeps P (transact (record_revision pr run_id commit_sha))
    recorded-Keeps pr run_id commit_sha =
        Keeps-transact _ (λ db. stable.revised pr run_id commit_sha db)

    revise_found-Keeps :
        (rework : PullRequest) (found : Option PullRequest)
        → Keeps P (revise_found s task run workspace rework found)
    unfolding revise_found
    revise_found-Keeps rework none = search keeps_rules
    revise_found-Keeps rework (some found) =
        search (keeps_rules, identity-Keeps, push-Keeps, recorded-Keeps) depth 10

    revise-Keeps : (rework : PullRequest) → Keeps P (revise s task run workspace rework)
    unfolding revise
    revise-Keeps rework = search (keeps_rules, revise_found-Keeps) depth 8

    confirmed-Keeps :
        (revision : PublishedRevision) (pr : PullRequest)
        → Keeps P (confirmed s task run workspace revision pr)
    unfolding confirmed
    confirmed-Keeps revision pr = search (keeps_rules, identity-Keeps)

    resolved-Keeps :
        (p : Ports) (revision : PublishedRevision) (found : Option PullRequest)
        → Keeps P (resolved s task run workspace p revision found)
    unfolding resolved
    resolved-Keeps p revision (some found) = confirmed-Keeps revision found
    resolved-Keeps p revision none = search (keeps_rules, confirmed-Keeps) depth 10

    resolve_pull_request-Keeps :
        (p : Ports) (revision : PublishedRevision)
        → Keeps P (resolve_pull_request s task run workspace p revision)
    unfolding resolve_pull_request
    resolve_pull_request-Keeps p revision = search (keeps_rules, resolved-Keeps) depth 8

module _ {P : Db → Type 0} (stable : IsPublishStable P) where
  recovered-Keeps :
      (intended : PullRequest) (e : Error) (stored : Option PullRequest)
      → Keeps P (recovered intended e stored)
  unfolding recovered
  recovered-Keeps intended e none = search keeps_rules
  recovered-Keeps intended e (some stored) = search keeps_rules

  not_saved-Keeps : (pr : PullRequest) (e : Error) → Keeps P (not_saved pr e)
  unfolding not_saved
  not_saved-Keeps pr duplicate_pull_request = search (keeps_rules, recovered-Keeps)
  not_saved-Keeps pr e = search keeps_rules

  persist-Keeps : (pr : PullRequest) → Keeps P (persist pr)
  unfolding persist
  persist-Keeps pr =
      Keeps-attempt _ _ _ (Keeps-transact _ (λ db. stable.saved pr db)) (λ row. search keeps_rules)
        (not_saved-Keeps pr)

  already_applied-Keeps : (e : Error) → Keeps P (already_applied e)
  unfolding already_applied
  already_applied-Keeps (invalid_transition from target) = search keeps_rules
  already_applied-Keeps (task_state_changed task_id expected actual) = search keeps_rules
  already_applied-Keeps e = search keeps_rules

  module _ (p : Ports) where
    step_from-Keeps :
        (task_id : String) (from target : TaskStatus) (found : Option FactoryTask)
        → is_handed target ≡ true
        → Keeps P (step_from p task_id from target found)
    unfolding step_from
    step_from-Keeps task_id from target none handed = search keeps_rules
    step_from-Keeps task_id from target (some task) handed =
        search
          (
            keeps_rules,
            transition-Keeps stable.applied p task_id target handed,
            already_applied-Keeps,
          )
          depth 8

    opening-Keeps :
        (task_id : String) (found : Option FactoryTask)
        → Keeps P (step_from p task_id TaskStatus.validating TaskStatus.pr_open found)
    opening-Keeps task_id found =
        step_from-Keeps task_id TaskStatus.validating TaskStatus.pr_open found refl

    handing-Keeps :
        (task_id : String) (found : Option FactoryTask)
        → Keeps P (step_from p task_id TaskStatus.pr_open TaskStatus.waiting_human found)
    handing-Keeps task_id found =
        step_from-Keeps task_id TaskStatus.pr_open TaskStatus.waiting_human found refl

    reconcile_published-Keeps : (task_id : String) → Keeps P (reconcile_published p task_id)
    unfolding reconcile_published
    reconcile_published-Keeps task_id =
        search (keeps_rules, require_task-Keeps, opening-Keeps, handing-Keeps) depth 12

    concluded-Keeps : (task : FactoryTask) (pr : PullRequest) → Keeps P (concluded p task pr)
    unfolding concluded
    concluded-Keeps task pr = search (keeps_rules, reconcile_published-Keeps)

    module _ (s : PublicationService) (task : FactoryTask) (run : AgentRun) where
      publish_existing-Keeps :
          (workspace : Workspace) (found : Option PullRequest)
          → Keeps P (publish_existing p s task run workspace found)
      unfolding publish_existing
      publish_existing-Keeps workspace (some existing) = concluded-Keeps task existing
      publish_existing-Keeps workspace none =
          search
            (
              keeps_rules,
              push-Keeps stable,
              resolve_pull_request-Keeps stable,
              persist-Keeps,
              concluded-Keeps,
            )
            depth 12

      publish_rework-Keeps :
          (workspace : Workspace) (found : Option PullRequest)
          → Keeps P (publish_rework p s task run workspace found)
      unfolding publish_rework
      publish_rework-Keeps workspace (some rework) =
          search (keeps_rules, revise-Keeps stable, concluded-Keeps) depth 8
      publish_rework-Keeps workspace none =
          search (keeps_rules, existing_pull_request-Keeps stable, publish_existing-Keeps) depth 8

      publish_run-Keeps : Keeps P (publish_run p s task run)
      unfolding publish_run
      publish_run-Keeps =
          search
            (
              keeps_rules,
              require_publishable-Keeps stable,
              security_review-Keeps stable,
              rework_pull_request-Keeps stable,
              publish_rework-Keeps,
            )
            depth 12

    own_run-Keeps : (task_id : String) (run : AgentRun) → Keeps P (own_run task_id run)
    unfolding own_run
    own_run-Keeps task_id run = search keeps_rules

    pub publish-Keeps :
        (s : PublicationService) (task_id run_id : String) → Keeps P (publish p s task_id run_id)
    unfolding publish require_run
    publish-Keeps s task_id run_id =
        search (keeps_rules, require_task-Keeps, own_run-Keeps, publish_run-Keeps) depth 12
