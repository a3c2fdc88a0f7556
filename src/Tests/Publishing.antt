-- ===== src/Tests/Publishing.antt =====
-- Publications of the sample's first task.
use ai_factory_lab.Common.{
  String, ◌≡◌, refl, true, false, none, some, [], ◌∷◌, arith, ◌==◌, string_eq, if◌then◌else◌,
}
use ai_factory_lab.Domain.Enums.{TaskStatus, RunStatus}
use ai_factory_lab.Domain.Models.{PullRequest}
use ai_factory_lab.Domain.Errors.{ok, err, task_not_publishable}
use ai_factory_lab.Store.{RunRow, Db, is_task, find_task}
use ai_factory_lab.Store.Tasks.{history}
use ai_factory_lab.Store.Stable.Lifecycles.{Refines}
use ai_factory_lab.Store.Pulls.{save_pull}
use ai_factory_lab.Store.Pulls.Unique.{IsUnique, are_distinct}
use ai_factory_lab.Exec.{World}
use ai_factory_lab.Orchestration.Texts.{TextService, build_pull_request_body}
use ai_factory_lab.Orchestration.Publication.Guards.{PublicationService}
use ai_factory_lab.Orchestration.Publication.{reconcile_published, publish}
use ai_factory_lab.Orchestration.Publication.Kept.{is_handed}
use ai_factory_lab.Orchestration.Tracking.Refresh.Audited.{is_driven}
use ai_factory_lab.Orchestration.Publication.Refined.{publish-Refines, publish-IsUnique}
use ai_factory_lab.Orchestration.Publication.Placed.{IsPlaced, publish-IsPlaced}
use ai_factory_lab.Orchestration.Publication.Outcomes.{
  reconcile_published_branches, publish-refused, publish-again, opened_and_handed, handed,
}
use ai_factory_lab.Orchestration.Reconciliation.{reconcile}
use ai_factory_lab.Orchestration.Reconciliation.Counts.{reconcile-Refines}
use ai_factory_lab.Tests.Sample.{task, row, run, workspace, world, ports, reconciler, registry}

abbrev texts : TextService
texts = record {
  strip = λ s. s;
  is_printable = λ c. true;
  external_ref = λ source. source.repository_slug;
}

abbrev pull : PullRequest
pull = record {
  repository_slug = "acme/site";
  head_branch = "factory/t1/w1";
  base_branch = "main";
  title = "add a page";
  body = "";
  number = some 7;
  url = none;
  task_id = some "t1";
  run_id = some "r1";
  opened_at = 3;
  merged = false;
  commit_sha = some "c0ffee";
}

-- A clean review, a publisher that pushes, and a provider that opens a seventh pull request.
abbrev publisher : PublicationService
publisher = record {
  texts = texts;
  base_branch = "main";
  registry = some registry;
  review = λ n t r. some (record { rule_version = "v1"; revision = "c0ffee"; findings = [] });
  is_overridden = λ n t r v. none;
  publish_workspace = λ n t r. ok (record { commit_sha = "c0ffee"; branch = "factory/t1/w1" });
  find_open_pull_request = λ n slug branch base. ok none;
  open_pull_request = λ n pr. ok (record pr { number = some 7 });
}

abbrev green_row : RunRow
green_row =
    let r = row RunStatus.succeeded in
    record r { run = record r.run { validated_revision = some "c0ffee" } }

abbrev validated : World
validated = world TaskStatus.validating (green_row ∷ [])

abbrev waiting : World
waiting =
    let w = world TaskStatus.waiting_human (green_row ∷ []) in
    record w { db = record w.db { pulls = pull ∷ [] } }

validated-IsUnique : IsUnique validated.db
unfolding are_distinct
validated-IsUnique = record { distinct = refl }

publish-IsUnique_example : IsUnique (publish ports publisher "t1" "r1" validated).1.db
publish-IsUnique_example = publish-IsUnique ports publisher "t1" "r1" validated validated-IsUnique

publish-Refines_example :
    Refines is_handed validated.db (publish ports publisher "t1" "r1" validated).1.db
publish-Refines_example = publish-Refines ports publisher "t1" "r1" validated

reconcile-Refines_example :
    Refines is_driven validated.db (reconcile ports reconciler validated).1.db
reconcile-Refines_example = reconcile-Refines ports reconciler validated

-- The pull request that the provider opened for the validated run.
abbrev opened_pull : PullRequest
opened_pull = record pull {
  body =
      build_pull_request_body texts (task "t1" TaskStatus.validating)
        (record (run RunStatus.succeeded) { validated_revision = some "c0ffee" });
  opened_at = 106;
}

publish-IsPlaced_example : IsPlaced publisher (task "t1" TaskStatus.validating) opened_pull
unfolding find_task publish ai_factory_lab.Exec.◌>>=◌
    ai_factory_lab.Orchestration.Transitions.require_task
    ai_factory_lab.Orchestration.Publication.Guards.require_run ai_factory_lab.Store.Runs.get_run
    ai_factory_lab.Orchestration.Publication.Guards.own_run ai_factory_lab.Store.Runs.read_run
    ai_factory_lab.Orchestration.Publication.publish_run
    ai_factory_lab.Orchestration.Publication.Guards.require_publishable
    ai_factory_lab.Orchestration.Tracking.Refresh.is_latest_run ai_factory_lab.Store.Runs.list_runs
    ai_factory_lab.Store.Runs.order_runs ai_factory_lab.Store.Order.order_by
    ai_factory_lab.Domain.Models.validation_outcome
    ai_factory_lab.Orchestration.Publication.Guards.check_workspace
    ai_factory_lab.Store.Runs.get_workspace
    ai_factory_lab.Orchestration.Publication.Guards.off_default
    ai_factory_lab.Orchestration.Publication.Guards.base_ref_for
    ai_factory_lab.Domain.Projects.resolve ai_factory_lab.Domain.Projects.matches_repository
    ai_factory_lab.Orchestration.Publication.Guards.security_review
    ai_factory_lab.Orchestration.Publication.Guards.reviewed
    ai_factory_lab.Orchestration.Publication.Guards.is_critical
    ai_factory_lab.Orchestration.Publication.Pulls.rework_pull_request
    ai_factory_lab.Store.Pulls.get_for_run
    ai_factory_lab.Orchestration.Publication.Pulls.earlier_pull
    ai_factory_lab.Store.Pulls.find_by_branch
    ai_factory_lab.Orchestration.Publication.publish_rework
    ai_factory_lab.Orchestration.Publication.Pulls.existing_pull_request
    ai_factory_lab.Orchestration.Publication.Pulls.persisted_pull
    ai_factory_lab.Orchestration.Publication.publish_existing
    ai_factory_lab.Orchestration.Publication.Guards.is_validated ai_factory_lab.Common.Text.is_blank
    ai_factory_lab.Orchestration.Publication.Guards.push
    ai_factory_lab.Orchestration.Publication.Pulls.resolve_pull_request
    ai_factory_lab.Orchestration.Publication.Pulls.resolved
    ai_factory_lab.Orchestration.Publication.Pulls.confirmed
    ai_factory_lab.Orchestration.Publication.Pulls.require_provider_identity
    ai_factory_lab.Orchestration.Publication.Pulls.requested
    ai_factory_lab.Orchestration.Publication.Pulls.persist ai_factory_lab.Exec.attempt save_pull
    ai_factory_lab.Orchestration.Texts.with_factory_metadata
    ai_factory_lab.Orchestration.Publication.concluded reconcile_published
    ai_factory_lab.Orchestration.Publication.step_from
    ai_factory_lab.Orchestration.Transitions.transition
    ai_factory_lab.Store.Tasks.checked_transition
    ai_factory_lab.Domain.Lifecycle.can_persist_transition ai_factory_lab.Store.Tasks.guarded_write
    ai_factory_lab.Store.Tasks.idle_guard ai_factory_lab.Store.Tasks.read_back
    ai_factory_lab.Store.Tasks.write_transition
    ai_factory_lab.Orchestration.Transitions.transition_task
    ai_factory_lab.Domain.Lifecycle.can_transition
    ai_factory_lab.Orchestration.Transitions.apply_transition
    ai_factory_lab.Store.Tasks.apply_transition
publish-IsPlaced_example = publish-IsPlaced ports publisher "t1" "r1" validated refl refl

reconcile_published_branches_example :
    (TaskStatus.validating ≡ TaskStatus.validating
      → reconcile_published ports "t1" validated
        ≡ (ok (TaskStatus.waiting_human, true), opened_and_handed ports "t1" validated))
    × (TaskStatus.validating ≡ TaskStatus.pr_open
        → reconcile_published ports "t1" validated
          ≡ (ok (TaskStatus.waiting_human, true), handed ports "t1" validated))
    × (true ≡ false
        → reconcile_published ports "t1" validated ≡ (ok (TaskStatus.validating, false), validated))
unfolding find_task is_task
reconcile_published_branches_example = reconcile_published_branches ports "t1" validated refl

publish-refused_example :
    let w = world TaskStatus.validating (row RunStatus.failed ∷ []) in
    publish ports publisher "t1" "r1" w ≡ (err (task_not_publishable "t1" "r1"), w)
unfolding find_task ai_factory_lab.Store.Runs.get_run ai_factory_lab.Store.Runs.read_run
    ai_factory_lab.Orchestration.Tracking.Refresh.is_latest_run ai_factory_lab.Store.Runs.list_runs
    ai_factory_lab.Store.Runs.order_runs ai_factory_lab.Store.Order.order_by
publish-refused_example =
    publish-refused ports publisher "t1" "r1"
      (world TaskStatus.validating (row RunStatus.failed ∷ [])) refl refl refl refl

publish-again_example : publish ports publisher "t1" "r1" waiting ≡ (
  ok (record { pull_request = pull; task_status = TaskStatus.waiting_human; opened_now = false }),
  waiting,
)
unfolding find_task ai_factory_lab.Store.Runs.get_run ai_factory_lab.Store.Runs.read_run
    ai_factory_lab.Orchestration.Publication.Guards.require_publishable ai_factory_lab.Exec.◌>>=◌
    ai_factory_lab.Orchestration.Tracking.Refresh.is_latest_run ai_factory_lab.Store.Runs.list_runs
    ai_factory_lab.Store.Runs.order_runs ai_factory_lab.Store.Order.order_by
    ai_factory_lab.Domain.Models.validation_outcome
    ai_factory_lab.Orchestration.Publication.Guards.check_workspace
    ai_factory_lab.Store.Runs.get_workspace
    ai_factory_lab.Orchestration.Publication.Guards.off_default
    ai_factory_lab.Orchestration.Publication.Guards.base_ref_for
    ai_factory_lab.Domain.Projects.resolve ai_factory_lab.Domain.Projects.matches_repository
    ai_factory_lab.Store.Pulls.get_for_run ai_factory_lab.Domain.Models.is_green
    ai_factory_lab.Domain.Models.required_gates_passed ai_factory_lab.Domain.Models.required_green
    ai_factory_lab.Exec.pure ai_factory_lab.Exec.query ai_factory_lab.Exec.raise is_task
    ai_factory_lab.Orchestration.Publication.Pulls.is_persisted_for
publish-again_example =
    publish-again ports publisher "t1" "r1" waiting {workspace = workspace} {base = "main"} refl
      refl refl refl refl refl refl refl
