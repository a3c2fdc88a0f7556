-- ===== src/Orchestration/Tracking/Refresh/Unchanged.antt =====
-- The refreshes of src/factory/orchestration/tracking.py that must write nothing.
use ai_factory_lab.Common.{
  suc, String, ◌≡◌, ◌≢◌, ◌∙◌, true, false, Option, none, some, ◌==◌, string_eq, ==_ne, ==_false,
  ◌⊎◌, inl, inr, Bool-cases,
}
use ai_factory_lab.Domain.Enums.{TaskStatus, agent_kind_eq, task_status_eq}
use ai_factory_lab.Domain.Models.{FactoryTask, AgentRun, is_terminal, validation_outcome}
use ai_factory_lab.Domain.Lifecycle.{can_transition}
use ai_factory_lab.Domain.Errors.{ok, err, or_raise, agent_collect}
use ai_factory_lab.Store.{find_task}
use ai_factory_lab.Store.Runs.{get_run, list_runs}
use ai_factory_lab.Exec.{Ports, World, pure, raise, ◌>>=◌, attempt}
use ai_factory_lab.Orchestration.Transitions.Branches.{transition_branches}
use ai_factory_lab.Orchestration.Tracking.{TrackingService}
use ai_factory_lab.Orchestration.Tracking.Refresh.{
  refresh, refresh_run, reconcile_terminal, result, status_of, is_latest_run, collected, RunRefresh,
  drive_to, not_driven,
}

-- What a refresh reports of a run.
abbrev pub report : AgentRun → Option FactoryTask → RunRefresh
report run task = record {
  run = run;
  task_status = status_of task;
  outcome = validation_outcome run;
}

module _ (p : Ports) (s : TrackingService) (run_id : String) (w : World) {run : AgentRun}
    (stored : get_run run_id w.db ≡ some run) where
  refresh-found : refresh p s run_id w ≡ refresh_run p s run w
  unfolding refresh ◌>>=◌
  refresh-found = rw (stored, or_raise)

  -- A run that storage has as terminal and that is not its task's newest is reported, and nothing is
  -- written or asked of a port: a superseded run never drives its task.
  pub refresh-superseded :
      run.adapter ≡ p.adapter_kind
      → is_terminal run ≡ true
      → is_latest_run run (list_runs run.task_id w.db) ≡ false
      → refresh p s run_id w ≡ (ok (report run (find_task run.task_id w.db)), w)
  unfolding refresh_run reconcile_terminal result ◌>>=◌
  refresh-superseded mine terminal superseded =
      refresh-found
      ∙ rw ((agent_kind_eq.beq_iff run.adapter p.adapter_kind).1 mine, terminal, superseded)

  -- A run of another adapter is refused before anything is written or asked.
  pub refresh-foreign :
      run.adapter ≢ p.adapter_kind
      → refresh p s run_id w ≡ (err (agent_collect run.run_id run.task_id), w)
  unfolding refresh_run raise
  refresh-foreign other = refresh-found ∙ rw (==_ne run.adapter p.adapter_kind other)

  -- An active run whose collection raises is refused with the database and the outside as they were:
  -- only the moment went on, so a later refresh collects it again.
  pub refresh-uncollected :
      run.adapter ≡ p.adapter_kind
      → is_terminal run ≡ false
      → p.collect w.tick run ≡ none
      → refresh p s run_id w
        ≡ (err (agent_collect run.run_id run.task_id), record w { tick = suc w.tick })
  unfolding refresh_run collected raise ◌>>=◌
  refresh-uncollected mine active silent =
      refresh-found ∙ rw ((agent_kind_eq.beq_iff run.adapter p.adapter_kind).1 mine, active, silent)

-- Driving a task to the status that it has, or to one that its own status has no edge to, is no
-- error and writes nothing: the state machine is never forced to fit an observed run.
pub drive_to-settled :
    (p : Ports) (target : TaskStatus) (w : World) {task : FactoryTask}
    → find_task task.task_id w.db ≡ some task
    → (task.status ≡ target) ⊎ (can_transition task.status target ≡ false)
    → drive_to p task.task_id (some target) (some task) w ≡ (ok tt, w)
unfolding drive_to pure
drive_to-settled p target w {task} found (inl same) =
    rw ((task_status_eq.beq_iff task.status target).1 same)
drive_to-settled p target w {task} found (inr illegal) = elim (Bool-cases (task.status == target)) [
  | inl same ↦ rw same
  | inr other ↦ rw other (
      unfold attempt not_driven pure in
      rw (
        (transition_branches p task.task_id target w found).1 (==_false task.status target other)
          illegal))
]
