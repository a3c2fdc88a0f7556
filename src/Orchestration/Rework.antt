-- ===== src/Orchestration/Rework.antt =====
-- src/factory/orchestration/rework.py: a human asks for changes to an open pull request.
pub mod Requests
use Prim.Native.Char.{Char, code}
use Prim.Native.String
use ai_factory_lab.Common.{
  ℕ, String, Bool, true, false, not, ◌&&◌, ◌||◌, Option, none, some, List, [], ◌∷◌, map, ◌==◌,
  nat_eq, string_eq, option_eq, if◌then◌else◌, ltb, last?, any,
}
use ai_factory_lab.Domain.Enums.{
  TaskStatus, RunStatus, TaskKind, task_status_eq, run_status_eq, task_kind_eq,
}
use ai_factory_lab.Domain.Models.{
  Workspace, FactoryTask, AgentRun, PullRequest, PullRequestState, open_state,
}
use ai_factory_lab.Domain.Errors.{Result, ok, err, rework_not_allowed}
use ai_factory_lab.Store.{Db}
use ai_factory_lab.Store.Tasks
use ai_factory_lab.Store.Runs.{list_runs}
use ai_factory_lab.Store.Pulls.{get_for_run, find_by_branch}
use ai_factory_lab.Exec.{Ports, Exec, pure, raise, lift, query, ask, transact, ◌>>=◌}
use ai_factory_lab.Orchestration.Transitions.{require_task}

-- Python's `str.strip`, `str.isprintable` on one character and the search for `_SENSITIVE`, and the
-- provider's answer on a pull request, `none` where it raises.
pub record ReworkService : Type 0 where
  pub strip : String → String
  pub is_printable : Char → Bool
  pub is_sensitive : String → Bool
  pub state : ℕ → PullRequest → Option PullRequestState

-- Every character may be stored: a printable one, a line feed or a tab.
unfoldable pub is_clean : (Char → Bool) → String → Bool
is_clean printable String.[] = true
is_clean printable (String.◌∷◌ c s) =
    (printable c || code c == 10 || code c == 9) && is_clean printable s

-- `len(s)`
unfoldable pub text_length : String → ℕ
text_length String.[] = 0
text_length (String.◌∷◌ c s) = ℕ.suc (text_length s)

-- `sanitize_feedback`
unfoldable pub sanitize_feedback : ReworkService → String → Result String
sanitize_feedback s raw =
    let feedback = s.strip raw in
    if feedback == ""
      || ltb 4000 (text_length feedback)
      || not (is_clean s.is_printable feedback)
      || s.is_sensitive feedback
    then err rework_not_allowed
    else ok feedback

unfoldable pub positive : Option ℕ → Bool
positive none = false
positive (some n) = ltb 0 n

-- `_matches`
unfoldable pub matches : FactoryTask → PullRequest → Bool
unfolding positive
matches task pr =
    pr.task_id == some task.task_id
    && pr.repository_slug == task.target_repository
    && positive pr.number

-- The pull request of the reviewed run, or that of its branch.
unfoldable pub by_workspace : Option Workspace → Db → Option PullRequest
by_workspace none db = none
by_workspace (some workspace) db = find_by_branch workspace.repository_slug workspace.branch db

unfoldable pub reviewed_pull : AgentRun → Db → Option PullRequest
unfolding by_workspace
reviewed_pull run db = elim (get_for_run run.run_id db) [
  | some pr ↦ some pr
  | none ↦ by_workspace run.workspace db
]

-- Whether the pull request is the one that the task's runs have made in this workspace.
unfoldable pub is_current : FactoryTask → List AgentRun → Workspace → PullRequest → Bool
is_current task runs workspace pr =
    matches task pr
    && any (λ run. pr.run_id == some run.run_id) runs
    && pr.head_branch == workspace.branch

unfoldable pub record_request : Ports → FactoryTask → AgentRun → String → Exec FactoryTask
record_request p task run feedback = do
  now ← ask p.now
  uid ← ask p.uuid
  transact (Tasks.request_rework task.task_id run.run_id feedback now uid)

unfoldable pub if_open :
    Ports → FactoryTask → AgentRun → String → Option PullRequestState → Exec FactoryTask
if_open p task run feedback (some open_state) = record_request p task run feedback
if_open p task run feedback _ = raise rework_not_allowed

unfoldable pub review :
    Ports
    → ReworkService
    → FactoryTask
    → String
    → List AgentRun
    → AgentRun
    → Option Workspace
    → Option PullRequest
    → Exec FactoryTask
review p s task feedback runs run (some workspace) (some pr) =
    if not (is_current task runs workspace pr)
    then raise rework_not_allowed
    else (do state ← ask (λ n. s.state n pr); if_open p task run feedback state)
review p s task feedback runs run _ _ = raise rework_not_allowed

unfoldable pub review_newest :
    Ports
    → ReworkService
    → FactoryTask
    → String
    → List AgentRun
    → Option AgentRun
    → Exec FactoryTask
review_newest p s task feedback runs none = raise rework_not_allowed
review_newest p s task feedback runs (some run) =
    if not (run.status == RunStatus.succeeded)
    then raise rework_not_allowed
    else (do pr ← query (reviewed_pull run); review p s task feedback runs run run.workspace pr)

-- `ReworkService.request`
unfoldable pub request : Ports → ReworkService → String → String → Exec FactoryTask
request p s task_id raw = do
  feedback ← lift (sanitize_feedback s raw)
  task ← require_task task_id
  if not (task.status == TaskStatus.waiting_human) || not (task.kind == TaskKind.code)
      then raise rework_not_allowed
      else (do runs ← query (list_runs task_id); review_newest p s task feedback runs (last? runs))
