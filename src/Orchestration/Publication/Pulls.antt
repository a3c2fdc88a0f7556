-- ===== src/Orchestration/Publication/Pulls.antt =====
-- src/factory/orchestration/publication.py: the pull request of a run is found, revised, opened or
-- recovered, and stored.
use ai_factory_lab.Common.{
  ℕ, String, Bool, false, not, ◌&&◌, ◌||◌, Option, none, some, List, [], ◌∷◌, ◌==◌, nat_eq,
  string_eq, option_eq, is_some, is_none, any, if◌then◌else◌,
}
use ai_factory_lab.Domain.Enums.{task_status_eq, run_status_eq, validation_outcome_eq}
use ai_factory_lab.Domain.Models.{Workspace, FactoryTask, AgentRun, PullRequest, PublishedRevision}
use ai_factory_lab.Domain.Errors.{
  Error, duplicate_pull_request, validated_revision_missing, pull_request_identity,
}
use ai_factory_lab.Store.{Db}
use ai_factory_lab.Store.Runs.{list_runs}
use ai_factory_lab.Store.Pulls.{get_for_run, find_by_branch, save_pull, record_revision}
use ai_factory_lab.Exec.{
  Ports, Exec, opened, pure, raise, lift, query, ask, transact, emit, ◌>>=◌, ◌>>◌, attempt,
}
use ai_factory_lab.Orchestration.Texts.{
  bounded_title, build_pull_request_body, with_factory_metadata,
}
use ai_factory_lab.Orchestration.Publication.Guards.{
  PublicationService, base_ref_for, is_validated, misidentified, push,
}

-- `runs[:-1]`
unfoldable pub but_last : List AgentRun → List AgentRun
but_last [] = []
but_last (r ∷ []) = []
but_last (r ∷ next ∷ rest) = r ∷ but_last (next ∷ rest)

module _ (s : PublicationService) (task : FactoryTask) (run : AgentRun)
    (workspace : Workspace) where
  -- `_require_provider_identity`
  unfoldable pub require_provider_identity : PullRequest → String → Exec (Unit {0})
  require_provider_identity pr head_branch = do
    base ← lift (base_ref_for s task)
    if not (pr.repository_slug == workspace.repository_slug)
          || not (pr.head_branch == head_branch)
          || not (pr.base_branch == base)
        then misidentified task run
        else pure tt

  -- The pull request of an earlier run of the task on the same branch.
  unfoldable pub is_review_of : String → PullRequest → Bool
  is_review_of base prior =
      prior.task_id == some task.task_id
      && prior.repository_slug == task.target_repository
      && prior.head_branch == workspace.branch
      && prior.base_branch == base
      && is_some prior.number
      && is_some prior.run_id

  unfoldable pub earlier_pull : Option PullRequest → Exec (Option PullRequest)
  earlier_pull none = pure none
  earlier_pull (some prior) = do
    base ← lift (base_ref_for s task)
    runs ← query (list_runs task.task_id)
    if not (is_review_of base prior)
        then misidentified task run
        else if not (any (λ r. prior.run_id == some r.run_id) (but_last runs))
        then misidentified task run
        else pure (some prior)

  -- `_rework_pull_request`
  unfoldable pub rework_pull_request : Exec (Option PullRequest)
  rework_pull_request = do
    own ← query (get_for_run run.run_id)
    prior ← query (find_by_branch workspace.repository_slug workspace.branch)
    if is_some own then pure none else earlier_pull prior

  -- `_require_persisted_identity`
  unfoldable pub is_persisted_for : String → PullRequest → Bool
  is_persisted_for base pr =
      pr.repository_slug == workspace.repository_slug
      && pr.head_branch == workspace.branch
      && pr.base_branch == base
      && (is_none pr.run_id || pr.run_id == some run.run_id)
      && (is_none pr.task_id || pr.task_id == some task.task_id)

  unfoldable pub persisted_pull : Option PullRequest → Exec (Option PullRequest)
  persisted_pull none = pure none
  persisted_pull (some pr) = do
    base ← lift (base_ref_for s task)
    if not (is_persisted_for base pr) then misidentified task run else pure (some pr)

  -- `_existing_pull_request`
  unfoldable pub existing_pull_request : Exec (Option PullRequest)
  existing_pull_request = do
    own ← query (get_for_run run.run_id)
    by_branch ← query (find_by_branch workspace.repository_slug workspace.branch)
    persisted_pull (if is_none own then by_branch else own)

  unfoldable pub revise_found : PullRequest → Option PullRequest → Exec PullRequest
  revise_found rework none = misidentified task run
  revise_found rework (some found) =
      if not (found.number == rework.number) || not (found.url == rework.url)
      then misidentified task run
      else (do
        require_provider_identity found workspace.branch
        revision ← push s task run
        if not (revision.branch == rework.head_branch)
            then misidentified task run
            else transact (record_revision rework run.run_id revision.commit_sha))

  -- The reviewed pull request gets the new revision.
  unfoldable pub revise : PullRequest → Exec PullRequest
  revise rework =
      if not (is_validated run)
      then raise (validated_revision_missing task.task_id run.run_id)
      else (do
        base ← lift (base_ref_for s task)
        reply ←
            ask (λ n. s.find_open_pull_request n workspace.repository_slug workspace.branch base)
        found ← lift reply
        revise_found rework found)

  -- The request that the provider is sent.
  unfoldable pub requested : String → String → ℕ → PullRequest
  requested head_branch base now = record {
    repository_slug = workspace.repository_slug;
    head_branch = head_branch;
    base_branch = base;
    title = bounded_title s.texts task.title;
    body = build_pull_request_body s.texts task run;
    number = none;
    url = none;
    task_id = some task.task_id;
    run_id = some run.run_id;
    opened_at = now;
    merged = false;
    commit_sha = none;
  }

  unfoldable pub confirmed : PublishedRevision → PullRequest → Exec PullRequest
  confirmed revision pr = do
    require_provider_identity pr revision.branch
    base ← lift (base_ref_for s task)
    pure (with_factory_metadata s.texts pr task run base revision.commit_sha)

  unfoldable pub resolved : Ports → PublishedRevision → Option PullRequest → Exec PullRequest
  resolved p revision (some found) = confirmed revision found
  resolved p revision none = do
    base ← lift (base_ref_for s task)
    now ← ask p.now
    emit (opened workspace.repository_slug revision.branch)
    reply ← ask (λ n. s.open_pull_request n (requested revision.branch base now))
    pr ← lift reply
    confirmed revision pr

  -- `_resolve_pull_request`
  unfoldable pub resolve_pull_request : Ports → PublishedRevision → Exec PullRequest
  resolve_pull_request p revision = do
    base ← lift (base_ref_for s task)
    reply ← ask (λ n. s.find_open_pull_request n workspace.repository_slug revision.branch base)
    found ← lift reply
    resolved p revision found

-- `_require_stored_matches`
unfoldable pub stored_matches : PullRequest → PullRequest → Bool
stored_matches intended stored =
    stored.repository_slug == intended.repository_slug
    && stored.head_branch == intended.head_branch
    && stored.base_branch == intended.base_branch
    && (is_none stored.run_id || stored.run_id == intended.run_id)

unfoldable pub recovered : PullRequest → Error → Option PullRequest → Exec PullRequest
recovered intended e none = raise e
recovered intended e (some stored) =
    if not (stored_matches intended stored)
    then raise (pull_request_identity (text_of intended.task_id) (text_of intended.run_id))
    else pure stored
  where
    text_of : Option String → String
    text_of none = ""
    text_of (some text) = text

unfoldable pub own_pull : Option String → Db → Option PullRequest
own_pull none db = none
own_pull (some run_id) db = get_for_run run_id db

-- The row that stood in the way: the run's own, or the branch's.
unfoldable pub stored_for : PullRequest → Db → Option PullRequest
stored_for pr db = elim (own_pull pr.run_id db) [
  | some stored ↦ some stored
  | none ↦ find_by_branch pr.repository_slug pr.head_branch db
]

unfoldable pub not_saved : PullRequest → Error → Exec PullRequest
not_saved pr duplicate_pull_request = do
  stored ← query (stored_for pr)
  recovered pr duplicate_pull_request stored
not_saved pr e = raise e

-- `_persist`
unfoldable pub persist : PullRequest → Exec PullRequest
persist pr = attempt (transact (save_pull pr)) pure (not_saved pr)
