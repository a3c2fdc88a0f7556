-- ===== src/Store/Pulls.antt =====
-- src/factory/infrastructure/persistence/pr_sqlite.py: the pull request repository. The columns
-- that the audit triggers read are not written here.
pub mod Unique
pub mod Revised
use ai_factory_lab.Common.{
  ℕ, String, Bool, true, false, not, ◌&&◌, ◌||◌, Option, none, some, List, [], ◌∷◌, ◌++◌, find, any,
  ◌==◌, nat_eq, string_eq, option_eq, is_none, is_some, is_blank, update_where, if◌then◌else◌,
}
use ai_factory_lab.Domain.Models.{Workspace, FactoryTask, PullRequest}
use ai_factory_lab.Domain.Errors.{
  Result, ok, err, value_error, duplicate_pull_request, persistence_error, integrity_error,
}
use ai_factory_lab.Store.{Db, RunRow, Transaction, find_task}
use ai_factory_lab.Store.Runs.{get_workspace}

-- `run_id` is unique in the table, and so is the pair of repository and branch.
unfoldable pub get_for_run : String → Db → Option PullRequest
get_for_run run_id db = find (λ pr. pr.run_id == some run_id) db.pulls

unfoldable pub find_by_branch : String → String → Db → Option PullRequest
find_by_branch slug branch db =
    find (λ pr. pr.repository_slug == slug && pr.head_branch == branch) db.pulls

-- The two unique constraints, on a new row and a stored one.
unfoldable pub breaks_identity : PullRequest → PullRequest → Bool
breaks_identity new old =
    old.run_id == new.run_id
    || (old.repository_slug == new.repository_slug && old.head_branch == new.head_branch)

-- `_row_to_pull_request` of the row that is inserted: a body is not stored.
unfoldable pub to_pull_row : PullRequest → PullRequest
to_pull_row pr = record pr { body = "" }

-- The INSERT, where `run_id` is given: UNIQUE, then the foreign key.
unfoldable pub insert_pull : PullRequest → String → Transaction PullRequest
insert_pull pr run_id db =
    if any (breaks_identity pr) db.pulls
    then (err duplicate_pull_request, db)
    else if not (any (λ r. r.run.run_id == run_id) db.runs)
    then (err persistence_error, db)
    else (ok pr, record db { pulls = db.pulls ++ to_pull_row pr ∷ [] })

-- The column `run_id` is NOT NULL.
unfoldable pub insert_by : Option String → PullRequest → Transaction PullRequest
unfolding insert_pull
insert_by none pr db = (err persistence_error, db)
insert_by (some run_id) pr db = insert_pull pr run_id db

-- `save`
unfoldable pub save_pull : PullRequest → Transaction PullRequest
unfolding insert_by
save_pull pr = insert_by pr.run_id pr

-- The identity that `record_revision` joins for a run from its task and its workspace.
pub record RevisionSource : Type 0 where
  pub task_id : String
  pub project_id : String
  pub workspace_id : String
  pub task_project_id : String
  pub target_repository : String
  pub workspace_repository : String
  pub branch : String

unfoldable pub joined : RunRow → Option FactoryTask → Option Workspace → Option RevisionSource
joined row (some task) (some workspace) = some (record {
  task_id = row.run.task_id;
  project_id = row.run.project_id;
  workspace_id = workspace.workspace_id;
  task_project_id = task.project_id;
  target_repository = task.target_repository;
  workspace_repository = workspace.repository_slug;
  branch = workspace.branch;
})
joined row _ _ = none

unfoldable pub revision_source : String → Db → Option RevisionSource
revision_source run_id db = elim (find (λ r. r.run.run_id == run_id) db.runs) [
  | none ↦ none
  | some row ↦
      joined row (find_task row.run.task_id db)
        (elim row.workspace_id [ none ↦ none | some id ↦ get_workspace id db ])
]

-- `tuple(source) == tuple(destination)`
unfoldable pub same_source : RevisionSource → RevisionSource → Bool
same_source a b =
    a.task_id == b.task_id
    && a.project_id == b.project_id
    && a.workspace_id == b.workspace_id
    && a.task_project_id == b.task_project_id
    && a.target_repository == b.target_repository
    && a.workspace_repository == b.workspace_repository
    && a.branch == b.branch

-- The test of `record_revision` on the two identities.
unfoldable pub is_revision : PullRequest → Option RevisionSource → Option RevisionSource → Bool
is_revision pr (some source) (some destination) =
    same_source source destination
    && pr.task_id == some destination.task_id
    && source.project_id == source.task_project_id
    && source.workspace_repository == source.target_repository
    && destination.project_id == destination.task_project_id
    && destination.workspace_repository == destination.target_repository
    && destination.target_repository == pr.repository_slug
    && destination.branch == pr.head_branch
is_revision pr _ _ = false

-- The WHERE clause that names the stored pull request; NULL equals nothing.
unfoldable pub is_stored_pull : PullRequest → PullRequest → Bool
is_stored_pull pr row =
    is_some pr.run_id
    && row.run_id == pr.run_id
    && is_some pr.task_id
    && row.task_id == pr.task_id
    && row.repository_slug == pr.repository_slug
    && row.head_branch == pr.head_branch
    && row.base_branch == pr.base_branch
    && is_some pr.number
    && row.number == pr.number

unfoldable pub set_revision : String → String → PullRequest → PullRequest
set_revision run_id commit_sha row = record row {
  run_id = some run_id;
  commit_sha = some commit_sha;
  merged = false;
}

-- The row that a method reads back by its run; the source asserts that there is one.
unfoldable pub read_pull : String → Transaction PullRequest
read_pull run_id db = elim (get_for_run run_id db) [
  | none ↦ (err value_error, db)
  | some pr ↦ (ok pr, db)
]

-- The UPDATE of `record_revision`, which `UNIQUE (run_id)` may refuse. That same constraint lets
-- the WHERE clause name one row at most.
unfoldable pub write_revision : PullRequest → String → String → Transaction PullRequest
write_revision pr run_id commit_sha db =
    if not (any (is_stored_pull pr) db.pulls)
    then (err value_error, db)
    else if any (λ row. row.run_id == some run_id && not (is_stored_pull pr row)) db.pulls
    then (err integrity_error, db)
    else read_pull run_id (record db {
      pulls = update_where (is_stored_pull pr) (set_revision run_id commit_sha) db.pulls;
    })

-- The SELECT of the run that the stored pull request names.
unfoldable pub pull_source : PullRequest → Db → Option RevisionSource
pull_source pr db = elim pr.run_id [
  | none ↦ none
  | some run_id ↦
      if any (λ row. row.run_id == pr.run_id && is_some pr.task_id && row.task_id == pr.task_id)
        db.pulls
      then revision_source run_id db
      else none
]

unfoldable pub record_revision : PullRequest → String → String → Transaction PullRequest
record_revision pr run_id commit_sha db =
    if is_blank commit_sha || is_blank run_id || is_none pr.run_id
    then (err value_error, db)
    else if not (is_revision pr (pull_source pr db) (revision_source run_id db))
    then (err value_error, db)
    else write_revision pr run_id commit_sha db

-- The row by the pull request's run; a caller without one has been refused before.
unfoldable pub read_own_pull : PullRequest → Transaction PullRequest
read_own_pull pr db = elim pr.run_id [
  | none ↦ (err value_error, db)
  | some run_id ↦ read_pull run_id db
]

unfoldable pub set_provider_revision : String → PullRequest → PullRequest
set_provider_revision commit_sha row = record row { commit_sha = some commit_sha; merged = false }

unfoldable pub record_provider_revision : PullRequest → String → Transaction PullRequest
record_provider_revision pr commit_sha db =
    if is_blank commit_sha || is_none pr.run_id || is_none pr.task_id || is_none pr.number
    then (err value_error, db)
    else let (read, after) = read_own_pull pr (record db {
      pulls = update_where (is_stored_pull pr) (set_provider_revision commit_sha) db.pulls;
    }) in
      elim read [ err e ↦ (err e, db) | ok row ↦ (ok row, after) ]

unfoldable pub has_commit : PullRequest → Bool
has_commit pr = elim pr.commit_sha [ none ↦ false | some sha ↦ not (sha == "") ]

-- The identity that a merge is recorded under.
unfoldable pub is_merge_of : PullRequest → PullRequest → Bool
is_merge_of pr row = is_stored_pull pr row && row.commit_sha == pr.commit_sha

unfoldable pub set_merged : PullRequest → PullRequest
set_merged row = record row { merged = true }

-- Where nothing was updated, the row must be the same pull request, merged before.
unfoldable pub already_merged : PullRequest → Transaction PullRequest
already_merged pr db =
    let (read, after) = read_own_pull pr db in
    elim read [
      | err e ↦ (err e, db)
      | ok row ↦ if is_merge_of pr row && row.merged then (ok row, db) else (err value_error, db)
    ]

unfoldable pub record_merged : PullRequest → Transaction PullRequest
record_merged pr db =
    if is_none pr.run_id || is_none pr.task_id || is_none pr.number || not (has_commit pr)
    then (err value_error, db)
    else if any (λ row. is_merge_of pr row && not row.merged) db.pulls
    then read_own_pull pr (record db {
      pulls = update_where (λ row. is_merge_of pr row && not row.merged) set_merged db.pulls;
    })
    else already_merged pr db
