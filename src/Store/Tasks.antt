-- ===== src/Store/Tasks.antt =====
-- src/factory/infrastructure/persistence/sqlite.py: the task repository.
-- The clock's reading and the fresh identifier that a method takes are arguments. The history is read in
-- insertion order, which is that of `occurred_at` as long as the clock does not go back.
pub mod Writes
pub mod Distinct
pub mod Claims
pub mod Audit
pub mod Entries
use ai_factory_lab.Common.{
  ℕ, zero, suc, String, Bool, true, false, not, ◌&&◌, ◌||◌, Option, none, some, List, [], ◌∷◌, ◌++◌,
  map, ◌==◌, string_eq, nat_eq, option_eq, ltb, if◌then◌else◌, length, select, find, any, count,
  last?, contains, update_where,
}
use ai_factory_lab.Domain.Enums.{TaskStatus, TaskKind, task_status_eq, task_kind_eq}
use ai_factory_lab.Domain.Models.{TaskSource, TaskTransition, FactoryTask}
use ai_factory_lab.Domain.Lifecycle.{can_persist_transition}
use ai_factory_lab.Domain.Errors.{
  Error, Result, ok, err, key_error, value_error, task_state_changed, invalid_transition,
  integrity_error, duplicate_task,
}
use ai_factory_lab.Store.{Db, ReworkRow, Transaction, is_task, is_active, is_busy, find_task}
use ai_factory_lab.Store.Order.{order_by}

-- How many different identifiers a list of rows names: `SELECT COUNT(*) FROM (... UNION ...)`.
unfoldable pub count_distinct : List String → ℕ
count_distinct [] = 0
count_distinct (x ∷ xs) = if contains xs x then count_distinct xs else suc (count_distinct xs)

-- The tasks in a busy status and the tasks with an active run, `keeps` choosing among them.
unfoldable pub busy_ids : (String → Bool) → Db → List String
busy_ids keeps db =
    map (λ t. t.task_id) (select (λ t. keeps t.task_id && is_busy t) db.tasks)
    ++ map (λ r. r.run.task_id) (select (λ r. keeps r.run.task_id && is_active r) db.runs)

-- The condition that a claim's UPDATE carries.
unfoldable pub idle_guard : ℕ → String → TaskStatus → Db → Bool
idle_guard max_active_claims task_id target db =
    if target == TaskStatus.claimed
    then ltb (count_distinct (busy_ids (λ id. not (id == task_id)) db)) max_active_claims
    else true

unfoldable pub set_status : TaskStatus → ℕ → FactoryTask → FactoryTask
set_status target now task = record task { status = target; updated_at = now }

unfoldable pub record_transition : String → String → TaskStatus → TaskStatus → ℕ → TaskTransition
record_transition uid task_id from target now = record {
  task_id = task_id;
  from_status = from;
  to_status = target;
  transition_id = uid;
  occurred_at = now;
}

unfoldable pub terminal_resolution : Bool → TaskStatus → TaskStatus → Bool
terminal_resolution allow from target =
    allow
    && contains (TaskStatus.failed ∷ TaskStatus.cancelled ∷ []) from
    && target == TaskStatus.done

-- `UPDATE tasks ... WHERE task_id = ? AND status = ?`
unfoldable pub in_status : String → TaskStatus → FactoryTask → Bool
unfolding is_task
in_status task_id status task = is_task task_id task && task.status == status

unfoldable pub write_transition : String → TaskStatus → TaskStatus → ℕ → String → Db → Db
unfolding set_status record_transition in_status
write_transition task_id from target now uid db = record db {
  tasks = update_where (in_status task_id from) (set_status target now) db.tasks;
  transitions = db.transitions ++ record_transition uid task_id from target now ∷ [];
}

-- The row read back after a write; the source asserts that there is one.
unfoldable pub read_back : String → Transaction FactoryTask
read_back task_id db = elim (find_task task_id db) [
  | some task ↦ (ok task, db)
  | none ↦ (err (key_error task_id), db)
]

-- The guarded UPDATE and what follows it, in a database where the row's status is `from`.
unfoldable pub guarded_write :
    ℕ → String → TaskStatus → TaskStatus → ℕ → String → Transaction FactoryTask
guarded_write max_claims task_id from target now uid db =
    if idle_guard max_claims task_id target db
    then read_back task_id (write_transition task_id from target now uid db)
    else (err (task_state_changed task_id from from), db)

unfoldable pub checked_transition :
    ℕ → Bool → String → TaskStatus → TaskStatus → ℕ → String → TaskStatus → Transaction FactoryTask
unfolding terminal_resolution
checked_transition max_claims allow task_id from target now uid actual db =
    if not (actual == from)
    then (err (task_state_changed task_id from actual), db)
    else if not (terminal_resolution allow from target || can_persist_transition actual target)
    then (err (invalid_transition actual target), db)
    else guarded_write max_claims task_id from target now uid db

-- `_apply_transition`
unfoldable pub apply :
    ℕ → Bool → String → TaskStatus → TaskStatus → ℕ → String → Transaction FactoryTask
apply max_claims allow task_id from target now uid db = elim (find_task task_id db) [
  | none ↦ (err (key_error task_id), db)
  | some task ↦ checked_transition max_claims allow task_id from target now uid task.status db
]

unfoldable pub apply_transition :
    ℕ → String → TaskStatus → TaskStatus → ℕ → String → Transaction FactoryTask
unfolding apply
apply_transition max_claims = apply max_claims false

unfoldable pub apply_terminal_resolution :
    ℕ → String → TaskStatus → ℕ → String → Transaction FactoryTask
unfolding apply
apply_terminal_resolution max_claims task_id from now uid db =
    if contains (TaskStatus.failed ∷ TaskStatus.cancelled ∷ []) from
    then apply max_claims true task_id from TaskStatus.done now uid db
    else (err value_error, db)

-- The constraints of the table of requests on `reviewed_run_id`: it is a run's, and each has one
-- request.
unfoldable pub is_reviewable : String → Db → Bool
is_reviewable run_id db =
    not (any (λ r. r.reviewed_run_id == run_id) db.rework)
    && any (λ r. r.run.run_id == run_id) db.runs

unfoldable pub request_rework : String → String → String → ℕ → String → Transaction FactoryTask
request_rework task_id run_id feedback now uid db = elim (find_task task_id db) [
  | none ↦ (err (key_error task_id), db)
  | some task ↦
      if not (task.status == TaskStatus.waiting_human)
      then (err (task_state_changed task_id TaskStatus.waiting_human task.status), db)
      else if not (is_reviewable run_id db)
      then (err integrity_error, db)
      else read_back task_id
          (record (write_transition task_id TaskStatus.waiting_human TaskStatus.changes_requested
            now uid db) {
              rework =
                  db.rework
                  ++ record {
                    task_id = task_id;
                    reviewed_run_id = run_id;
                    feedback = feedback;
                    requested_at = now;
                  }
                    ∷ [];
            })
]

-- `ORDER BY requested_at DESC, rowid DESC LIMIT 1`: of the rows with the latest time, the last.
latest_request : Option ReworkRow → List ReworkRow → Option ReworkRow
latest_request best [] = best
latest_request none (r ∷ rs) = latest_request (some r) rs
latest_request (some b) (r ∷ rs) =
    latest_request (if ltb r.requested_at b.requested_at then some b else some r) rs

unfoldable pub latest_rework_feedback : String → Db → Option String
unfolding latest_request
latest_rework_feedback task_id db =
    elim (latest_request none (select (λ r. r.task_id == task_id) db.rework)) [
      | none ↦ none
      | some r ↦ some r.feedback
    ]

-- The columns that `update` writes; it leaves `created_at`.
unfoldable pub write_columns : FactoryTask → FactoryTask → FactoryTask
write_columns task row = record task { created_at = row.created_at }

unfoldable pub same_identity : FactoryTask → FactoryTask → Bool
unfolding is_task
same_identity task row =
    is_task task.task_id row
    && row.kind == task.kind
    && row.project_id == task.project_id
    && row.target_repository == task.target_repository

-- `list()` and `list(status)`
unfoldable pub list_all : Db → List FactoryTask
list_all db = order_by (λ t. t.created_at) (λ t. t.task_id) db.tasks

unfoldable pub list_status : TaskStatus → Db → List FactoryTask
list_status status db =
    order_by (λ t. t.created_at) (λ t. t.task_id) (select (λ t. t.status == status) db.tasks)

unfoldable pub has_source : TaskSource → Option TaskSource → Bool
has_source source none = false
has_source source (some s) =
    s.provider == source.provider
    && s.repository_slug == source.repository_slug
    && s.issue_number == source.issue_number

unfoldable pub find_by_source : TaskSource → Db → Option FactoryTask
unfolding has_source
find_by_source source db = find (λ t. has_source source t.source) db.tasks

-- The table's constraints on a new row: the identifier, and the source, if there is one.
unfoldable pub same_source_as : Option TaskSource → FactoryTask → Bool
unfolding has_source
same_source_as none old = false
same_source_as (some source) old = has_source source old.source

unfoldable pub breaks_task : FactoryTask → FactoryTask → Bool
unfolding is_task same_source_as
breaks_task new old = is_task new.task_id old || same_source_as new.source old

-- Another row has the source that the row would get.
unfoldable pub takes_source : FactoryTask → FactoryTask → Bool
unfolding is_task same_source_as
takes_source new old = not (is_task new.task_id old) && same_source_as new.source old

unfoldable pub update : FactoryTask → Transaction FactoryTask
unfolding write_columns same_identity takes_source
update task db =
    if not (any (same_identity task) db.tasks)
    then (err (key_error task.task_id), db)
    else if any (takes_source task) db.tasks
    then (err integrity_error, db)
    else (
      ok task,
      record db { tasks = update_where (same_identity task) (write_columns task) db.tasks },
    )

-- What the violated constraint is raised as.
unfoldable pub duplicate_of : Option TaskSource → Error
duplicate_of none = integrity_error
duplicate_of (some source) = duplicate_task

-- `save`, given whether the trigger on `backlog_links` lets the row in.
unfoldable pub save_task : Bool → FactoryTask → Transaction FactoryTask
unfolding breaks_task duplicate_of
save_task allowed task db =
    if not allowed
    then (err integrity_error, db)
    else if any (breaks_task task) db.tasks
    then (err (duplicate_of task.source), db)
    else (ok task, record db { tasks = db.tasks ++ task ∷ [] })

-- `ORDER BY occurred_at ASC, rowid ASC` over rows that are written as time goes on.
unfoldable pub history : String → Db → List TaskTransition
history task_id db = select (λ t. t.task_id == task_id) db.transitions
