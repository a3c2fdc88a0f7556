-- ===== src/Store/Tasks/Audit.antt =====
-- The history rows of src/factory/infrastructure/persistence/sqlite.py account for every status.
use ai_factory_lab.Common.{
  ℕ, String, ◌≡◌, refl, ap, Bool, false, Option, none, some, inl, inr, ◌==◌, string_eq, ==_refl,
  Bool-cases, arith, if◌then◌else◌, List, [], ◌∷◌, ◌++◌, find_holds, sym, subst, ◌∙◌, Option-cases,
}
use ai_factory_lab.Domain.Enums.{TaskStatus, task_status_eq}
use ai_factory_lab.Domain.Models.{FactoryTask, TaskTransition}
use ai_factory_lab.Store.{Db, is_task, find_task}
use ai_factory_lab.Store.Tasks.{
  in_status, set_status, record_transition, write_transition, apply, history,
}
use ai_factory_lab.Store.Tasks.Writes.{
  apply-atomic, find_task-write, find_task-write_self, history-write,
}

-- The status that a history leads to, if each of its rows starts where the row before it ended.
unfoldable pub replay : TaskStatus → List TaskTransition → Option TaskStatus
replay status [] = some status
replay status (t ∷ rest) =
    let later = replay t.to_status rest in if t.from_status == status then later else none

pub replay-append :
    (status middle : TaskStatus) (past : List TaskTransition) (t : TaskTransition)
    → replay status past ≡ some middle
    → t.from_status ≡ middle
    → replay status (past ++ t ∷ []) ≡ some t.to_status
unfolding replay
replay-append status middle [] t h joined =
    ground (arith, task_status_eq.beq_iff t.from_status status)
replay-append status middle (s ∷ past) t h joined =
    ground (arith, replay-append s.to_status middle past t)

-- Every stored task's history leads from the status that it was created in to its present one.
pub record IsAudited (created : String → TaskStatus) (db : Db) : Type 0 where
  pub accounted :
      (task_id : String) (task : FactoryTask)
      → find_task task_id db ≡ some task
      → replay (created task_id) (history task_id db) ≡ some task.status

-- Only the tasks and the history count.
pub frame-IsAudited :
    {created : String → TaskStatus} {db db' : Db}
    → db'.tasks ≡ db.tasks
    → db'.transitions ≡ db.transitions
    → IsAudited created db
    → IsAudited created db'
unfolding find_task history
frame-IsAudited {created} {db} {db'} tasks rows audited = record {
  accounted = λ task_id task stored. rw rows (audited.accounted task_id task (rw tasks at stored));
}

module _ (task_id : String) (from target : TaskStatus) (now : ℕ) (uid : String) (db : Db)
    {task : FactoryTask} (found : find_task task_id db ≡ some task)
    (here : task.status ≡ from) where
  abbrev after : Db
  after = write_transition task_id from target now uid db

  -- Another task's row and history are as they were.
  pub find_task-write_ne :
      (j : String) → (task_id == j) ≡ false → find_task j after ≡ find_task j db
  unfolding find_task in_status
  find_task-write_ne j other =
      rw (find_task-write task_id from target now uid db j) (elim (Option-cases (find_task j db)) [
        | inl missing ↦ rw missing
        | inr (row, stored) ↦ rw stored (
            ground (
              arith,
              find_holds (is_task j) db.tasks stored,
              string_eq.beq_iff row.task_id j,
              string_eq.beq_iff row.task_id task_id,
              string_eq.beq_iff task_id j,
            ))
      ])

  history-write_ne : (j : String) → (task_id == j) ≡ false → history j after ≡ history j db
  history-write_ne j other = rw (history-write task_id from target now uid db j) (rw other)

  history-write_self :
      history task_id after
      ≡ history task_id db ++ record_transition uid task_id from target now ∷ []
  history-write_self =
      rw (history-write task_id from target now uid db task_id) (rw (==_refl task_id))

  module _ {created : String → TaskStatus} (audited : IsAudited created db) where
    replay-write :
        (row : FactoryTask)
        → find_task task_id after ≡ some row
        → replay (created task_id) (history task_id after) ≡ some row.status
    unfolding record_transition set_status
    replay-write row stored = rw history-write_self (
        ground (
          arith,
          stored,
          find_task-write_self task_id from target now uid db found here,
          replay-append (created task_id) from (history task_id db)
              (record_transition uid task_id from target now)
              (audited.accounted task_id task found ∙ ap some here) refl,
        ))

    -- Writing a transition from the stored status keeps every history accounting for its status.
    pub write-IsAudited : IsAudited created after
    write-IsAudited = record {
      accounted = λ j row stored. elim (Bool-cases (task_id == j)) [
        | inl same ↦
            subst
              (λ k.
                find_task k after ≡ some row
                → replay (created k) (history k after) ≡ some row.status)
              ((string_eq.beq_iff task_id j).0 same) (replay-write row) stored
        | inr other ↦
            rw (history-write_ne j other)
              (audited.accounted j row (sym (find_task-write_ne j other) ∙ stored))
      ];
    }

-- Whatever transition is asked for, by the normal graph or as a provider's terminal resolution, and
-- whether it is applied or refused: afterwards each task's history still leads from the status that
-- the task was created in, row by row, to its stored status.
pub apply-IsAudited :
    (max_claims : ℕ) (allow : Bool) (task_id : String) (from target : TaskStatus) (now : ℕ)
    (uid : String) (db : Db) {created : String → TaskStatus}
    → IsAudited created db
    → IsAudited created (apply max_claims allow task_id from target now uid db).1
apply-IsAudited max_claims allow task_id from target now uid db audited =
    elim (apply-atomic max_claims allow task_id from target now uid db) [
      | inl (e, raised) ↦ rw raised audited
      | inr (task, applied) ↦
          rw applied.result
            (write-IsAudited task_id from target now uid db applied.stored applied.expected audited)
    ]
