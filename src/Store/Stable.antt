-- ===== src/Store/Stable.antt =====
-- The interface between the task repository and the services that write through it: a property of
-- the database that every write of a service keeps.
pub mod Audited
pub mod Lifecycles
use ai_factory_lab.Common.{ℕ, String, ◌≡◌, Bool, true, false, string_eq, arith}
use ai_factory_lab.Domain.Lifecycle.{can_transition}
use ai_factory_lab.Domain.Enums.{TaskStatus}
use ai_factory_lab.Domain.Models.{AgentRun}
use ai_factory_lab.Store.{Db}
use ai_factory_lab.Store.Tasks.{apply, request_rework}
use ai_factory_lab.Store.Runs.{update_run, update_checked}

-- A property that the transitions of the normal graph into some statuses keep.
abbrev pub KeptByApply : (TaskStatus → Bool) → (Db → Type 0) → Type 0
KeptByApply enters P =
    (max_claims : ℕ) (task_id : String) (from target : TaskStatus) (now : ℕ) (uid : String)
    (db : Db)
    → enters target ≡ true
    → can_transition from target ≡ true
    → P db
    → P (apply max_claims false task_id from target now uid db).1

-- A property that rework requests keep.
abbrev pub KeptByRequest : (Db → Type 0) → Type 0
KeptByRequest P =
    (task_id run_id feedback : String) (now : ℕ) (uid : String) (db : Db)
    → P db
    → P (request_rework task_id run_id feedback now uid db).1

-- A property of the tasks and of their history that those transitions keep.
pub record IsStable (enters : TaskStatus → Bool) (P : Db → Type 0) : Type 0 where
  pub applied : KeptByApply enters P
  pub framed :
      (db db' : Db) → db'.tasks ≡ db.tasks → db'.transitions ≡ db.transitions → P db → P db'

-- `update_run` writes no table of tasks and no history.
update_run-tasks :
    (run : AgentRun) (db : Db)
    → ((update_run run db).1.tasks ≡ db.tasks)
      × ((update_run run db).1.transitions ≡ db.transitions)
unfolding update_run update_checked
update_run-tasks run db = (ground arith, ground arith)

pub update_run-stable :
    {enters : TaskStatus → Bool} {P : Db → Type 0} (stable : IsStable enters P) (run : AgentRun)
    (db : Db)
    → P db
    → P (update_run run db).1
update_run-stable stable run db =
    let (tasks, rows) = update_run-tasks run db in stable.framed db (update_run run db).1 tasks rows
