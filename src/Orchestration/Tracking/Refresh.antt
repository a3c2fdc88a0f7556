-- ===== src/Orchestration/Tracking/Refresh.antt =====
-- src/factory/orchestration/tracking.py: `RunTrackingService.refresh` drives a task from its run.
pub mod Audited
pub mod Unchanged
use ai_factory_lab.Common.{
  ℕ, ◌+◌, String, Bool, true, false, not, ◌&&◌, ◌||◌, Option, none, some, List, [], ◌∷◌, ◌==◌,
  string_eq, if◌then◌else◌, contains, last?, leb, is_none, is_empty,
}
use ai_factory_lab.Domain.Enums.{
  TaskStatus, RunStatus, TaskKind, ValidationOutcome, task_status_eq, run_status_eq, task_kind_eq,
  validation_outcome_eq, agent_kind_eq,
}
use ai_factory_lab.Domain.Models.{
  Workspace, FactoryTask, AgentRun, PullRequest, is_terminal, required_gates_passed,
  validation_outcome,
}
use ai_factory_lab.Domain.Projects.{resolve}
use ai_factory_lab.Domain.Errors.{
  Error, Result, ok, err, or_raise, key_error, agent_collect, invalid_transition,
}
use ai_factory_lab.Store.{active_statuses, find_task}
use ai_factory_lab.Store.Tasks
use ai_factory_lab.Store.Runs.{get_run, list_runs, update_run}
use ai_factory_lab.Store.Pulls.{get_for_run, find_by_branch}
use ai_factory_lab.Exec.{Ports, Exec, pure, raise, lift, query, ask, transact, ◌>>=◌, ◌>>◌, attempt}
use ai_factory_lab.Orchestration.Transitions.{transition}
use ai_factory_lab.Orchestration.Tracking.{
  TrackingService, specs_for, validate_operational, validate_revision, workspace_eq,
}

pub record RunRefresh : Type 0 where
  pub run : AgentRun
  pub task_status : TaskStatus
  pub outcome : ValidationOutcome

-- `_TERMINAL_TASK_TARGET`
unfoldable pub terminal_task_target : RunStatus → Option TaskStatus
terminal_task_target RunStatus.succeeded = some TaskStatus.validating
terminal_task_target RunStatus.failed = some TaskStatus.failed
terminal_task_target RunStatus.cancelled = some TaskStatus.cancelled
terminal_task_target _ = none

unfoldable pub same_workspace : Option Workspace → Option Workspace → Bool
same_workspace none none = true
same_workspace (some a) (some b) = workspace_eq a b
same_workspace _ _ = false

-- The last two runs of a history, the older one first.
unfoldable pub last_two : List AgentRun → Option (AgentRun × AgentRun)
last_two [] = none
last_two (a ∷ []) = none
last_two (a ∷ b ∷ []) = some (a, b)
last_two (a ∷ b ∷ c ∷ runs) = last_two (b ∷ c ∷ runs)

-- `_follows_failed_gates`, from the task's history
unfoldable pub follows_failed_gates : AgentRun → List AgentRun → Bool
follows_failed_gates run history = elim (last_two history) [
  | none ↦ false
  | some (previous, newest) ↦
      newest.run_id == run.run_id
      && validation_outcome previous == ValidationOutcome.gates_failed
      && same_workspace previous.workspace run.workspace
]

-- The status that `_drive_task` aims at. A failed correction is left recoverable.
unfoldable pub drive_target : AgentRun → Bool → Option TaskStatus
drive_target run correction =
    if run.status == RunStatus.failed && correction
    then some TaskStatus.blocked
    else terminal_task_target run.status

-- An illegal transition leaves the task alone.
unfoldable pub not_driven : Error → Exec (Unit {0})
not_driven (invalid_transition from target) = pure tt
not_driven e = raise e

unfoldable pub drive_to : Ports → String → Option TaskStatus → Option FactoryTask → Exec (Unit {0})
drive_to p task_id (some target) (some task) =
    if task.status == target
    then pure tt
    else attempt (transition p task_id target none) (λ _. pure tt) not_driven
drive_to p task_id _ _ = pure tt

-- `_drive_task`
unfoldable pub drive_task : Ports → AgentRun → Exec (Unit {0})
drive_task p run = do
  feedback ← query (Tasks.latest_rework_feedback run.task_id)
  history ← query (list_runs run.task_id)
  task ← query (find_task run.task_id)
  let correction = not (is_none feedback) || follows_failed_gates run history
  drive_to p run.task_id (drive_target run correction) task

unfoldable pub status_of : Option FactoryTask → TaskStatus
status_of none = TaskStatus.discovered
status_of (some task) = task.status

-- `_result`
unfoldable pub result : AgentRun → Exec RunRefresh
unfolding status_of
result run = do
  task ← query (find_task run.task_id)
  pure (record { run = run; task_status = status_of task; outcome = validation_outcome run })

-- `_is_latest_run`
unfoldable pub is_latest_run : AgentRun → List AgentRun → Bool
is_latest_run run runs = elim (last? runs) [
  | none ↦ false
  | some newest ↦ newest.run_id == run.run_id
]

abbrev pub FindOpen : Type 0
FindOpen = ℕ → String → String → String → Result (Option PullRequest)

-- The branch that a task's pull request would be opened against.
unfoldable pub base_for : TrackingService → FactoryTask → Result String
base_for s task = elim s.registry [
  | none ↦ ok s.base_branch
  | some registry ↦ elim (resolve registry task.project_id (some task.target_repository)) [
    | err e ↦ err e
    | ok profile ↦ ok profile.base_ref
  ]
]

-- The last question of `_can_revalidate`: whether the provider knows an open pull request.
unfoldable pub none_open : TrackingService → FactoryTask → Workspace → FindOpen → Exec Bool
none_open s task workspace find_open = do
  base ← lift (base_for s task)
  reply ← ask (λ n. find_open n task.target_repository workspace.branch base)
  pull ← lift reply
  pure (is_none pull)

unfoldable pub unpublished : AgentRun → Workspace → Exec Bool
unpublished run workspace = do
  for_run ← query (get_for_run run.run_id)
  by_branch ← query (find_by_branch workspace.repository_slug workspace.branch)
  pure (is_none for_run && is_none by_branch)

-- The conditions of `_can_revalidate` on what is stored.
unfoldable pub revalidatable : TrackingService → AgentRun → FactoryTask → Bool
revalidatable s run task =
    task.status == TaskStatus.validating
    && is_none run.validated_revision
    && not (is_empty run.gates)
    && required_gates_passed run
    && s.has_pull_requests

unfoldable pub revalidate_by :
    TrackingService → AgentRun → Option FactoryTask → Option Workspace → Option FindOpen → Exec Bool
revalidate_by s run (some task) (some workspace) (some find_open) =
    if not (revalidatable s run task) then pure false else (do
      fresh ← unpublished run workspace
      if not fresh then pure false else none_open s task workspace find_open)
revalidate_by s run _ _ _ = pure false

-- `_can_revalidate`
unfoldable pub can_revalidate : Ports → TrackingService → AgentRun → Exec Bool
can_revalidate p s run = do
  task ← query (find_task run.task_id)
  revalidate_by s run task run.workspace p.find_open_pull_request

-- Gates are configured for a run that has none and no revision.
unfoldable pub never_validated : TrackingService → AgentRun → Exec Bool
never_validated s run =
    if not (is_empty run.gates)
    then pure false
    else (do specs ← specs_for s run; pure (not (is_empty specs) && is_none run.validated_revision))

unfoldable pub needs_validation : Ports → TrackingService → AgentRun → Exec Bool
needs_validation p s run =
    if not (run.status == RunStatus.succeeded)
    then pure false
    else (do missing ← never_validated s run; if missing then pure true else can_revalidate p s run)

unfoldable pub validate_code : Ports → TrackingService → AgentRun → Exec AgentRun
validate_code p s run = do
  verdict ← validate_revision p s run
  pure (record run { gates = verdict.0; validated_revision = verdict.1 })

-- A succeeded run is validated by the rules for its task's kind.
unfoldable pub validate_for :
    Ports → TrackingService → AgentRun → Option FactoryTask → Exec AgentRun
validate_for p s run none = validate_code p s run
validate_for p s run (some task) =
    if task.kind == TaskKind.operational
    then (do gates ← validate_operational p task run; pure (record run { gates = gates }))
    else validate_code p s run

unfoldable pub validate : Ports → TrackingService → AgentRun → Exec AgentRun
validate p s run = do task ← query (find_task run.task_id); validate_for p s run task

-- `_reconcile_terminal` and the result of the run that it leaves
unfoldable pub reconcile_latest : Ports → TrackingService → AgentRun → Exec RunRefresh
reconcile_latest p s run = do
  wanted ← needs_validation p s run
  settled ←
      if wanted
      then (do validated ← validate p s run; transact (update_run validated); pure validated)
      else pure run
  drive_task p settled
  result settled

unfoldable pub reconcile_terminal : Ports → TrackingService → AgentRun → Exec RunRefresh
reconcile_terminal p s run = do
  runs ← query (list_runs run.task_id)
  if not (is_latest_run run runs) then result run else reconcile_latest p s run

-- Whether a heartbeat is missing or as old as the interval.
unfoldable pub is_due : ℕ → ℕ → Option ℕ → Bool
is_due interval now none = true
is_due interval now (some last) = leb (last + interval) now

unfoldable pub beat : TrackingService → ℕ → AgentRun → AgentRun
beat s now run =
    if is_due s.heartbeat_interval now run.last_heartbeat
    then record run { last_heartbeat = some now }
    else run

unfoldable pub agent_beat_by :
    Option (ℕ → AgentRun → Option ℕ) → TrackingService → ℕ → AgentRun → Exec AgentRun
agent_beat_by none s now run = pure run
agent_beat_by (some read) s now run =
    if not (is_due s.heartbeat_interval now run.agent_heartbeat)
    then pure run
    else (do heard ← ask (λ n. read n run); pure (record run { agent_heartbeat = heard }))

unfoldable pub agent_beat : Ports → TrackingService → ℕ → AgentRun → Exec AgentRun
unfolding agent_beat_by
agent_beat p s now run = agent_beat_by p.read_agent_heartbeat s now run

unfoldable pub heartbeats : Ports → TrackingService → AgentRun → Exec AgentRun
heartbeats p s run =
    if not (contains active_statuses run.status)
    then pure run
    else (do now ← ask p.now; agent_beat p s now (beat s now run))

-- What `refresh` does with the collected run.
unfoldable pub settle : Ports → TrackingService → AgentRun → Exec RunRefresh
settle p s collected = do
  alive ← heartbeats p s collected
  run ← if alive.status == RunStatus.succeeded then validate p s alive else pure alive
  transact (update_run run)
  drive_task p run
  result run

unfoldable pub collected : Ports → TrackingService → AgentRun → Option AgentRun → Exec RunRefresh
collected p s run none = raise (agent_collect run.run_id run.task_id)
collected p s run (some observed) = settle p s observed

unfoldable pub refresh_run : Ports → TrackingService → AgentRun → Exec RunRefresh
refresh_run p s run =
    if not (run.adapter == p.adapter_kind)
    then raise (agent_collect run.run_id run.task_id)
    else if is_terminal run
    then reconcile_terminal p s run
    else (do reply ← ask (λ n. p.collect n run); collected p s run reply)

-- `RunTrackingService.refresh`
unfoldable pub refresh : Ports → TrackingService → String → Exec RunRefresh
refresh p s run_id = do
  found ← query (get_run run_id)
  run ← lift (or_raise (key_error run_id) found)
  refresh_run p s run
