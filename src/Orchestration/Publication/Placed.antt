-- ===== src/Orchestration/Publication/Placed.antt =====
-- Where the pull request that `publish` of src/factory/orchestration/publication.py returns belongs.
use ai_factory_lab.Common.{
  String, ◌≡◌, refl, sym, ap, ◌∙◌, false, not, ◌||◌, Option, none, some, any, is_some, ◌==◌,
  string_eq, option_eq, nat_eq, arith, subst, inl, inr, Bool-cases,
}
use ai_factory_lab.Domain.Enums.{TaskStatus, task_status_eq}
use ai_factory_lab.Domain.Models.{Workspace, FactoryTask, AgentRun, PullRequest, PublishedRevision}
use ai_factory_lab.Domain.Errors.{
  Error, Result, or_raise, ok, err, project_routing, duplicate_pull_request, task_not_publishable,
  pull_request_identity, validated_revision_missing,
}
use ai_factory_lab.Store.{Db, find_task}
use ai_factory_lab.Store.Pulls.{save_pull, insert_by, insert_pull, record_revision, breaks_identity}
use ai_factory_lab.Store.Pulls.Revised.{SamePlace, record_revision-SamePlace}
use ai_factory_lab.Exec.{Ports, World, pure, transact, ◌>>=◌}
use ai_factory_lab.Exec.Ensures.{
  Ensures, Holds, Holds-map, ensures_rules, Ensures-pure, Ensures-raise, Ensures-unless,
  Ensures-branches, Ensures-bind, Ensures-then, Ensures-attempt, Ensures-lift, Ensures_result,
}
use ai_factory_lab.Orchestration.Transitions.{require_task}
use ai_factory_lab.Orchestration.Texts.{or_text, with_factory_metadata}
use ai_factory_lab.Orchestration.Publication.Guards.{
  PublicationService, PublicationResult, base_ref_for, is_validated, off_default, check_workspace,
  require_publishable, require_run,
}
use ai_factory_lab.Orchestration.Publication.Pulls.{
  but_last, require_provider_identity, is_review_of, earlier_pull, rework_pull_request,
  is_persisted_for, persisted_pull, existing_pull_request, revise_found, revise, confirmed,
  resolved, resolve_pull_request, stored_matches, recovered, not_saved, persist,
}
use ai_factory_lab.Orchestration.Publication.{
  concluded, publish_existing, publish_rework, publish_run, publish,
}

-- The pull request is of the task's repository, and against the base branch of its project.
pub record IsPlaced (s : PublicationService) (task : FactoryTask) (pr : PullRequest) : Type 0 where
  pub repository : pr.repository_slug ≡ task.target_repository
  pub base : base_ref_for s task ≡ ok pr.base_branch

module _ (s : PublicationService) (task : FactoryTask) (run : AgentRun) where
  -- The workspace is one of the task's repository.
  abbrev InTarget : Workspace → Type 0
  InTarget workspace = workspace.repository_slug ≡ task.target_repository

  -- A pull request that was found, if one was, is placed.
  abbrev FoundPlaced : Option PullRequest → Type 0
  FoundPlaced none = Unit
  FoundPlaced (some pr) = IsPlaced s task pr

  off_default-InTarget :
      (workspace : Workspace) (base : Result String)
      → InTarget workspace
      → Ensures InTarget (off_default s task run workspace base)
  unfolding off_default
  off_default-InTarget workspace (ok base) here =
      Ensures-branches _ _ _ (Ensures-raise _) (Ensures-pure workspace here)
  off_default-InTarget workspace (err project_routing) here = Ensures-raise _
  off_default-InTarget workspace (err e) here = Ensures-raise e

  check_workspace-InTarget :
      (workspace : Option Workspace) → Ensures InTarget (check_workspace s task run workspace)
  unfolding check_workspace
  check_workspace-InTarget none = Ensures-raise _
  check_workspace-InTarget (some workspace) =
      Ensures-unless
        (not (run.project_id == task.project_id)
          || not (workspace.repository_slug == task.target_repository))
        (task_not_publishable task.task_id run.run_id) _
        (λ fit.
          off_default-InTarget workspace (base_ref_for s task) (
            ground
              (arith, fit, string_eq.beq_iff workspace.repository_slug task.target_repository)))

  require_publishable-InTarget : Ensures InTarget (require_publishable s task run)
  unfolding require_publishable
  require_publishable-InTarget = search (ensures_rules, check_workspace-InTarget) depth 10

  module _ (workspace : Workspace) (here : InTarget workspace) where
    reviewed-Placed :
        (base : String) (prior : PullRequest)
        → base_ref_for s task ≡ ok base
        → not (is_review_of s task run workspace base prior) ≡ false
        → IsPlaced s task prior
    unfolding is_review_of
    reviewed-Placed base prior based fit = record {
      repository =
          ground (arith, fit, string_eq.beq_iff prior.repository_slug task.target_repository);
      base = ground (arith, fit, based, string_eq.beq_iff prior.base_branch base);
    }

    earlier_pull-Placed :
        (prior : Option PullRequest) → Ensures FoundPlaced (earlier_pull s task run workspace prior)
    unfolding earlier_pull
    earlier_pull-Placed none = Ensures-pure none tt
    earlier_pull-Placed (some prior) = Ensures-lift _ _ (λ base based. Ensures-then _ _ (λ runs.
        Ensures-unless (not (is_review_of s task run workspace base prior))
          (pull_request_identity task.task_id run.run_id) _
          (λ fit.
            Ensures-branches (not (any (λ r. prior.run_id == some r.run_id) (but_last runs))) _ _
              (Ensures-raise (pull_request_identity task.task_id run.run_id))
              (Ensures-pure (some prior) (reviewed-Placed base prior based fit)))))

    rework_pull_request-Placed : Ensures FoundPlaced (rework_pull_request s task run workspace)
    unfolding rework_pull_request
    rework_pull_request-Placed = Ensures-then _ _ (λ own. Ensures-then _ _ (λ prior.
        Ensures-branches (is_some own) _ _ (Ensures-pure none tt) (earlier_pull-Placed prior)))

    persisted-Placed :
        (base : String) (pr : PullRequest)
        → base_ref_for s task ≡ ok base
        → not (is_persisted_for s task run workspace base pr) ≡ false
        → IsPlaced s task pr
    unfolding is_persisted_for
    persisted-Placed base pr based fit = record {
      repository =
          ground (arith, fit, here, string_eq.beq_iff pr.repository_slug workspace.repository_slug);
      base = ground (arith, fit, based, string_eq.beq_iff pr.base_branch base);
    }

    persisted_pull-Placed :
        (found : Option PullRequest)
        → Ensures FoundPlaced (persisted_pull s task run workspace found)
    unfolding persisted_pull
    persisted_pull-Placed none = Ensures-pure none tt
    persisted_pull-Placed (some pr) = Ensures-lift _ _ (λ base based.
        Ensures-unless (not (is_persisted_for s task run workspace base pr))
          (pull_request_identity task.task_id run.run_id) _
          (λ fit. Ensures-pure (some pr) (persisted-Placed base pr based fit)))

    existing_pull_request-Placed : Ensures FoundPlaced (existing_pull_request s task run workspace)
    unfolding existing_pull_request
    existing_pull_request-Placed = search (ensures_rules, persisted_pull-Placed)

    -- The identity that the provider confirmed.
    identity-Placed :
        (pr : PullRequest) (head : String)
        → Ensures (λ _. IsPlaced s task pr) (require_provider_identity s task run workspace pr head)
    unfolding require_provider_identity
    identity-Placed pr head = Ensures-lift _ _ (λ base based.
        Ensures-unless
          (not (pr.repository_slug == workspace.repository_slug)
            || not (pr.head_branch == head)
            || not (pr.base_branch == base))
          (pull_request_identity task.task_id run.run_id) _
          (λ fit. Ensures-pure tt (record {
            repository =
                ground (
                  arith,
                  fit,
                  here,
                  string_eq.beq_iff pr.repository_slug workspace.repository_slug,
                );
            base = ground (arith, fit, based, string_eq.beq_iff pr.base_branch base);
          })))

    metadata-Placed :
        (pr : PullRequest) (base commit_sha : String)
        → base_ref_for s task ≡ ok base
        → IsPlaced s task pr
        → IsPlaced s task (with_factory_metadata s.texts pr task run base commit_sha)
    unfolding with_factory_metadata or_text
    metadata-Placed pr base commit_sha based placed = record {
      repository = placed.repository;
      base = ground (arith, based, placed.base, string_eq.beq_iff pr.base_branch "");
    }

    confirmed-Placed :
        (revision : PublishedRevision) (pr : PullRequest)
        → Ensures (IsPlaced s task) (confirmed s task run workspace revision pr)
    unfolding confirmed
    confirmed-Placed revision pr =
        Ensures-bind _ _ (identity-Placed pr revision.branch) (λ _ placed.
          Ensures-lift _ _ (λ base based.
            Ensures-pure (with_factory_metadata s.texts pr task run base revision.commit_sha)
              (metadata-Placed pr base revision.commit_sha based placed)))

    resolved-Placed :
        (p : Ports) (revision : PublishedRevision) (found : Option PullRequest)
        → Ensures (IsPlaced s task) (resolved s task run workspace p revision found)
    unfolding resolved
    resolved-Placed p revision (some found) = confirmed-Placed revision found
    resolved-Placed p revision none = search (ensures_rules, confirmed-Placed) depth 10

    resolve_pull_request-Placed :
        (p : Ports) (revision : PublishedRevision)
        → Ensures (IsPlaced s task) (resolve_pull_request s task run workspace p revision)
    unfolding resolve_pull_request
    resolve_pull_request-Placed p revision = search (ensures_rules, resolved-Placed) depth 8

    -- A stored pull request of the same place as a placed one is placed.
    same-Placed :
        (pr row : PullRequest) → IsPlaced s task pr → SamePlace pr row → IsPlaced s task row
    same-Placed pr row placed same = record {
      repository = same.slug ∙ placed.repository;
      base = placed.base ∙ ap (λ b. ok b) (sym same.base);
    }

    recorded-Placed :
        (rework : PullRequest) (commit_sha : String)
        → IsPlaced s task rework
        → Ensures (IsPlaced s task) (transact (record_revision rework run.run_id commit_sha))
    unfolding transact
    recorded-Placed rework commit_sha placed = record {
      at = λ w.
          Holds-map (λ row. same-Placed rework row placed)
            (record_revision rework run.run_id commit_sha w.db).0
            (record_revision-SamePlace rework run.run_id commit_sha w.db);
    }

    revise_found-Placed :
        (rework : PullRequest) (found : Option PullRequest)
        → IsPlaced s task rework
        → Ensures (IsPlaced s task) (revise_found s task run workspace rework found)
    unfolding revise_found
    revise_found-Placed rework none placed = Ensures-raise _
    revise_found-Placed rework (some found) placed =
        search (ensures_rules, recorded-Placed) depth 10

    revise-Placed :
        (rework : PullRequest)
        → IsPlaced s task rework
        → Ensures (IsPlaced s task) (revise s task run workspace rework)
    unfolding revise
    revise-Placed rework placed = search (ensures_rules, revise_found-Placed) depth 10

    inserted-Same :
        (pr : PullRequest) (run_id : Option String) (db : Db)
        → Holds (λ row. row ≡ pr) (insert_by run_id pr db).0
    unfolding insert_by insert_pull
    inserted-Same pr none db = tt
    inserted-Same pr (some run_id) db = elim (Bool-cases (any (breaks_identity pr) db.pulls)) [
      | inl taken ↦ rw taken tt
      | inr free ↦ elim (Bool-cases (not (any (λ r. r.run.run_id == run_id) db.runs))) [
        | inl absent ↦ rw (free, absent) tt
        | inr there ↦ rw (free, there) refl
      ]
    ]

    recovered-Placed :
        (pr : PullRequest) (e : Error) (found : Option PullRequest)
        → IsPlaced s task pr
        → Ensures (IsPlaced s task) (recovered pr e found)
    unfolding recovered stored_matches
    recovered-Placed pr e none placed = Ensures-raise e
    recovered-Placed pr e (some stored) placed =
        Ensures-unless (not (stored_matches pr stored)) _ _ (λ fit. Ensures-pure stored (record {
          repository = ground (
            arith,
            fit,
            placed.repository,
            string_eq.beq_iff stored.repository_slug pr.repository_slug,
          );
          base =
              ground (arith, fit, placed.base, string_eq.beq_iff stored.base_branch pr.base_branch);
        }))

    not_saved-Placed :
        (pr : PullRequest) (e : Error)
        → IsPlaced s task pr
        → Ensures (IsPlaced s task) (not_saved pr e)
    unfolding not_saved
    not_saved-Placed pr duplicate_pull_request placed = search (ensures_rules, recovered-Placed)
    not_saved-Placed pr e placed = Ensures-raise e

    saved-Same : (pr : PullRequest) → Ensures (λ row. row ≡ pr) (transact (save_pull pr))
    unfolding transact save_pull
    saved-Same pr = record { at = λ w. inserted-Same pr pr.run_id w.db }

    persist-Placed :
        (pr : PullRequest) → IsPlaced s task pr → Ensures (IsPlaced s task) (persist pr)
    unfolding persist
    persist-Placed pr placed =
        Ensures-attempt (transact (save_pull pr)) pure (not_saved pr) (saved-Same pr)
          (λ row same. Ensures-pure row (subst (IsPlaced s task) (sym same) placed))
          (λ e. not_saved-Placed pr e placed)

  -- The result's pull request is placed.
  abbrev Published : PublicationResult → Type 0
  Published result = IsPlaced s task result.pull_request

  concluded-Published :
      (p : Ports) (pr : PullRequest) → IsPlaced s task pr → Ensures Published (concluded p task pr)
  unfolding concluded
  concluded-Published p pr placed = Ensures-then _ _ (λ outcome.
      Ensures-pure (record { pull_request = pr; task_status = outcome.0; opened_now = outcome.1 })
        placed)

  module _ (p : Ports) (workspace : Workspace) (here : InTarget workspace) where
    publish_existing-Published :
        (found : Option PullRequest)
        → FoundPlaced found
        → Ensures Published (publish_existing p s task run workspace found)
    unfolding publish_existing
    publish_existing-Published (some existing) placed = concluded-Published p existing placed
    publish_existing-Published none placed =
        Ensures-branches (not (task.status == TaskStatus.validating)) _ _
          (Ensures-raise (task_not_publishable task.task_id run.run_id))
          (Ensures-branches (not (is_validated run)) _ _
            (Ensures-raise (validated_revision_missing task.task_id run.run_id))
            (Ensures-then _ _ (λ revision.
              Ensures-bind _ _ (resolve_pull_request-Placed workspace here p revision) (λ pr found.
                Ensures-bind _ _ (persist-Placed workspace here pr found)
                  (λ row stored. concluded-Published p row stored)))))

    publish_rework-Published :
        (found : Option PullRequest)
        → FoundPlaced found
        → Ensures Published (publish_rework p s task run workspace found)
    unfolding publish_rework
    publish_rework-Published (some rework) placed =
        Ensures-bind _ _
          (Ensures-branches (task.status == TaskStatus.validating) _ _
            (revise-Placed workspace here rework placed) (Ensures-pure rework placed))
          (λ pr kept. concluded-Published p pr kept)
    publish_rework-Published none placed =
        Ensures-bind _ _ (existing_pull_request-Placed workspace here)
          (λ found kept. publish_existing-Published found kept)

  publish_run-Published : (p : Ports) → Ensures Published (publish_run p s task run)
  unfolding publish_run
  publish_run-Published p = Ensures-bind _ _ require_publishable-InTarget (λ workspace here.
      Ensures-then _ _ (λ _.
        Ensures-bind _ _ (rework_pull_request-Placed workspace here)
          (λ found placed. publish_rework-Published p workspace here found placed)))

-- Where a publication returns, new, revised or recovered, its pull request is of the task's own
-- repository and against the base branch that the task's project has, whatever the publisher, the
-- provider and the table of pull requests answered.
pub publish-IsPlaced :
    (p : Ports) (s : PublicationService) (task_id run_id : String) (w : World) {task : FactoryTask}
    {result : PublicationResult}
    → find_task task_id w.db ≡ some task
    → (publish p s task_id run_id w).0 ≡ ok result
    → IsPlaced s task result.pull_request
unfolding publish require_task ◌>>=◌
publish-IsPlaced p s task_id run_id w {task} found returned =
    Ensures_result (require_run run_id task_id >>= λ run. publish_run p s task run)
      (Ensures-then _ _ (λ run. publish_run-Published s task run p)) w
      (rw (found, or_raise) at returned)
