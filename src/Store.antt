-- ===== src/Store.antt =====
-- The tables of src/factory/infrastructure/persistence/schema.py that the task, run and pull
-- request repositories share, as lists of rows in insertion order (`rowid`), and the queries that
-- several repositories make. A method of a repository is one transaction, so it is a function of
-- the whole database that gives the database back as it was where it raises.
pub mod Order
pub mod Tasks
pub mod Runs
pub mod Links
pub mod Pulls
pub mod Sprints
pub mod Stable
use ai_factory_lab.Common.{
  ℕ, String, Bool, true, false, ◌&&◌, ◌||◌, Option, none, some, List, [], ◌∷◌, map, ◌==◌, string_eq,
  select, find, contains,
}
use ai_factory_lab.Domain.Enums.{TaskStatus, RunStatus, task_status_eq, run_status_eq}
use ai_factory_lab.Domain.Models.{TaskTransition, Workspace, FactoryTask, AgentRun, PullRequest}
use ai_factory_lab.Domain.Sprints.{SprintManifest, SprintState}
use ai_factory_lab.Domain.Errors.{Result}

-- A row of `agent_runs` names its workspace, which stands in the table `workspaces`: the field
-- `workspace` of `run` is empty in a row.
pub record RunRow : Type 0 where
  pub run : AgentRun
  pub workspace_id : Option String
  pub created_at : ℕ

-- A row of `qa_rework_requests`.
pub record ReworkRow : Type 0 where
  pub task_id : String
  pub reviewed_run_id : String
  pub feedback : String
  pub requested_at : ℕ

-- A row of `sprints`.
pub record SprintRow : Type 0 where
  pub manifest : SprintManifest
  pub state : SprintState
  pub position : ℕ

-- The sprint events of `audit_events`, by the parts of `event_key`.
pub record SprintFact : Type 0 where
  pub sprint_id : String
  pub name : String
  pub position : ℕ
  pub occurrence : Option ℕ

pub record Db : Type 0 where
  pub tasks : List FactoryTask
  pub transitions : List TaskTransition
  pub rework : List ReworkRow
  pub workspaces : List Workspace
  pub runs : List RunRow
  pub pulls : List PullRequest
  pub sprints : List SprintRow
  pub sprint_facts : List SprintFact

-- What one transaction gives: a result, or the error that it was rolled back with.
abbrev pub Transaction {ℓ} : Type ℓ → Type ℓ
Transaction A = Db → Result A × Db

abbrev pub active_statuses : List RunStatus
active_statuses = RunStatus.pending ∷ RunStatus.running ∷ []

abbrev pub busy_statuses : List TaskStatus
busy_statuses =
    TaskStatus.claimed ∷ TaskStatus.running ∷ TaskStatus.validating ∷ TaskStatus.pr_open ∷ []

unfoldable pub is_task : String → FactoryTask → Bool
is_task task_id task = task.task_id == task_id

unfoldable pub is_active : RunRow → Bool
is_active row = contains active_statuses row.run.status

unfoldable pub is_busy_status : TaskStatus → Bool
is_busy_status = contains busy_statuses

unfoldable pub is_busy : FactoryTask → Bool
is_busy task = is_busy_status task.status

-- `SELECT * FROM tasks WHERE task_id = ?`
unfoldable pub find_task : String → Db → Option FactoryTask
unfolding is_task
find_task task_id db = find (is_task task_id) db.tasks
