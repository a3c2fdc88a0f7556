-- ===== src/Orchestration/Publication/Refined.antt =====
-- What `publish` of src/factory/orchestration/publication.py keeps: the tasks' graph, the audit
-- trail and the identities of pull requests.
use ai_factory_lab.Common.{
  ℕ, String, ◌≡◌, refl, true, false, Option, none, some, inl, inr, arith, string_eq, option_eq,
}
use ai_factory_lab.Domain.Enums.{TaskStatus}
use ai_factory_lab.Domain.Models.{PullRequest}
use ai_factory_lab.Domain.Lifecycle.{can_transition}
use ai_factory_lab.Store.{Db}
use ai_factory_lab.Store.Stable.{IsStable}
use ai_factory_lab.Store.Stable.Audited.{IsAudited-IsStable}
use ai_factory_lab.Store.Stable.Lifecycles.{Refines, Refines-refl, Refines-IsStable}
use ai_factory_lab.Store.Tasks.Audit.{IsAudited}
use ai_factory_lab.Store.Tasks.Writes.{apply-atomic}
use ai_factory_lab.Store.Tasks.{apply, write_transition}
use ai_factory_lab.Store.Pulls.{
  save_pull, insert_by, insert_pull, record_revision, write_revision, read_pull,
}
use ai_factory_lab.Store.Pulls.Unique.{IsUnique, save_pull-IsUnique, record_revision-IsUnique}
use ai_factory_lab.Exec.{Ports, World}
use ai_factory_lab.Orchestration.Publication.Guards.{PublicationService}
use ai_factory_lab.Orchestration.Publication.{publish}
use ai_factory_lab.Orchestration.Publication.Kept.{IsPublishStable, is_handed, publish-Keeps}

-- The two tables that a property of tasks reads.
record SameTasks (db' db : Db) : Type 0 where
  tasks : db'.tasks ≡ db.tasks
  rows : db'.transitions ≡ db.transitions

SameTasks-refl : (db : Db) → SameTasks db db
SameTasks-refl db = record { tasks = refl; rows = refl }

insert_by-tasks :
    (run_id : Option String) (pr : PullRequest) (db : Db) → SameTasks (insert_by run_id pr db).1 db
unfolding insert_by insert_pull
insert_by-tasks none pr db = SameTasks-refl db
insert_by-tasks (some run_id) pr db = record { tasks = ground arith; rows = ground arith }

save_pull-tasks : (pr : PullRequest) (db : Db) → SameTasks (save_pull pr db).1 db
unfolding save_pull
save_pull-tasks pr db = insert_by-tasks pr.run_id pr db

record_revision-tasks :
    (pr : PullRequest) (run_id commit_sha : String) (db : Db)
    → SameTasks (record_revision pr run_id commit_sha db).1 db
unfolding record_revision write_revision read_pull
record_revision-tasks pr run_id commit_sha db = record { tasks = ground arith; rows = ground arith }

-- A property of the tasks and their history is kept by the writes of pull requests too.
IsStable-IsPublishStable : {P : Db → Type 0} → IsStable is_handed P → IsPublishStable P
IsStable-IsPublishStable stable = record {
  applied = stable.applied;
  saved = λ pr db.
      let same = save_pull-tasks pr db in stable.framed db (save_pull pr db).1 same.tasks same.rows;
  revised = λ pr run_id commit_sha db.
      let same = record_revision-tasks pr run_id commit_sha db in
      stable.framed db (record_revision pr run_id commit_sha db).1 same.tasks same.rows;
}

apply-IsUnique :
    (max_claims : ℕ) (task_id : String) (from target : TaskStatus) (now : ℕ) (uid : String)
    (db : Db)
    → is_handed target ≡ true
    → can_transition from target ≡ true
    → IsUnique db
    → IsUnique (apply max_claims false task_id from target now uid db).1
unfolding write_transition
apply-IsUnique max_claims task_id from target now uid db handed edge unique =
    elim (apply-atomic max_claims false task_id from target now uid db) [
      | inl (e, raised) ↦ rw raised unique
      | inr (task, applied) ↦ rw applied.result (record { distinct = unique.distinct })
    ]

IsUnique-IsPublishStable : IsPublishStable IsUnique
IsUnique-IsPublishStable = record {
  applied = apply-IsUnique;
  saved = save_pull-IsUnique;
  revised = record_revision-IsUnique;
}

module _ (p : Ports) (s : PublicationService) (task_id run_id : String) (w : World) where
  -- A publication, whatever the review, the publisher and the provider answer and whether it returns
  -- or raises, loses no task and only appends to the history; each row that it appends is an edge of
  -- the normal graph into PR_OPEN or WAITING_HUMAN, and each task's appended rows lead, one after the
  -- other, from the status that it had to the status that it is stored in.
  pub publish-Refines : Refines is_handed w.db (publish p s task_id run_id w).1.db
  publish-Refines =
      (publish-Keeps (IsStable-IsPublishStable (Refines-IsStable is_handed w.db)) p s task_id
          run_id).at
        w (Refines-refl is_handed w.db)

  -- A publication, whether it returns or raises, keeps each task's history leading from the status it
  -- was created in to its status.
  pub publish-IsAudited :
      (created : String → TaskStatus)
      → IsAudited created w.db
      → IsAudited created (publish p s task_id run_id w).1.db
  publish-IsAudited created audited =
      (publish-Keeps (IsStable-IsPublishStable (IsAudited-IsStable is_handed created)) p s task_id
          run_id).at
        w audited

  -- A publication, whether it returns or raises, keeps at most one stored pull request for each run
  -- and for each branch of a repository.
  pub publish-IsUnique : IsUnique w.db → IsUnique (publish p s task_id run_id w).1.db
  publish-IsUnique unique = (publish-Keeps IsUnique-IsPublishStable p s task_id run_id).at w unique
