-- ===== src/Orchestration/Sprint.antt =====
-- src/factory/orchestration/sprint.py: authorisation and the ordered selection of work items.
pub mod Ports
pub mod Plan
pub mod Kept
pub mod Planned
pub mod Gates
pub mod Paused
use ai_factory_lab.Common.{
  ℕ, suc, String, Bool, true, false, not, ◌&&◌, ◌||◌, Option, none, some, List, [], ◌∷◌, ◌==◌,
  nat_eq, string_eq, if◌then◌else◌, is_empty, any, contains, length, ltb,
}
use ai_factory_lab.Domain.Enums.{TaskStatus, task_status_eq}
use ai_factory_lab.Domain.Models.{TaskSource, FactoryTask}
use ai_factory_lab.Domain.Sprints.{
  WorkItem, MaterializedIssue, SprintState, SprintStep, SprintManifest, sprint_state_eq, same_item,
}
use ai_factory_lab.Domain.Errors.{Result, ok, err, or_raise, value_error}
use ai_factory_lab.Store.{Db, SprintRow}
use ai_factory_lab.Store.Sprints.{
  SprintEvent, is_live_state, current, current_for_project, live_projects, move,
}
use ai_factory_lab.Exec.{Exec, pure, raise, lift, query, ask, transact, ◌>>=◌, ◌>>◌}
use ai_factory_lab.Orchestration.Sprint.Ports.{SprintService, task_for, is_complete, step_at}

abbrev pub stop_statuses : List TaskStatus
stop_statuses =
    TaskStatus.waiting_human ∷ TaskStatus.blocked ∷ TaskStatus.failed ∷ TaskStatus.cancelled ∷ []

unfoldable pub is_stopped : Option FactoryTask → Bool
is_stopped none = false
is_stopped (some task) = contains stop_statuses task.status

unfoldable pub is_done : Option FactoryTask → Bool
is_done none = false
is_done (some task) = task.status == TaskStatus.done

-- `self._sprints.move`
unfoldable pub move_sprint : SprintManifest → SprintState → ℕ → SprintEvent → Exec (Unit {0})
move_sprint manifest state position event = transact (move manifest.sprint_id state position event)

unfoldable pub pause_at : SprintManifest → ℕ → Exec Bool
pause_at manifest position =
    move_sprint manifest SprintState.paused position SprintEvent.paused >> pure false

module _ (s : SprintService) (manifest : SprintManifest) where
  -- Whether the feedback on the task has been recorded.
  unfoldable pub completed_by : Option (ℕ → String → Bool) → Option FactoryTask → Exec Bool
  completed_by (some is_completed) (some task) = ask (λ n. is_completed n task.task_id)
  completed_by _ _ = pure true

  -- A step that is done: the sprint goes to the next one, or is complete.
  unfoldable pub pass_step : ℕ → Bool → Exec Bool → Exec Bool
  pass_step position at_end next =
      if at_end
      then move_sprint manifest SprintState.complete (suc position) SprintEvent.completed >> next
      else move_sprint manifest SprintState.active (suc position) SprintEvent.advanced >> next

  unfoldable pub finish_step : ℕ → Option FactoryTask → Bool → Exec Bool → Exec Bool
  finish_step position task at_end next = do
    recorded ← completed_by s.is_completed task
    if not recorded then pause_at manifest position else pass_step position at_end next

  unfoldable pub materialized :
      WorkItem → Option MaterializedIssue → Exec (Option MaterializedIssue)
  materialized item (some issue) = pure (some issue)
  materialized item none = do
    reply ← ask (λ n. s.materialize n item.external_id)
    _ ← lift reply
    ask (λ n. s.get_issue n item.provider item.external_id)

  unfoldable pub select_step : ℕ → Option MaterializedIssue → Exec Bool
  select_step position none = pure false
  select_step position (some issue) =
      move_sprint manifest SprintState.active position SprintEvent.selected >> pure true

  -- A step whose task is neither done nor stopped.
  unfoldable pub open_step : ℕ → WorkItem → Option MaterializedIssue → Exec Bool
  open_step position item issue = do
    reply ← ask (λ n. s.get_item n item.external_id)
    actual ← lift reply
    if not (same_item actual item) then pause_at manifest position else (do
      complete ← is_complete s manifest position
      if not complete
          then pause_at manifest position
          else (do now ← materialized item issue; select_step position now))

  unfoldable pub optional_task : WorkItem → Option MaterializedIssue → Exec (Option FactoryTask)
  optional_task item none = pure none
  optional_task item (some issue) = task_for s item

  -- The loop of `prepare_for_project` over the steps that are left.
  unfoldable pub prepare_from : ℕ → List SprintStep → Exec Bool
  prepare_from position [] = pure false
  prepare_from position (step ∷ rest) =
      let next = prepare_from (suc position) rest in
      ask (λ n. s.get_issue n step.item.provider step.item.external_id) >>= λ issue.
      optional_task step.item issue >>= λ task.
      if is_done task
      then finish_step position task (is_empty rest) next
      else if is_stopped task
      then pause_at manifest position
      else open_step position step.item issue

-- `manifest.steps[position:]`
unfoldable pub steps_from : ℕ → List SprintStep → List SprintStep
steps_from ℕ.zero steps = steps
steps_from (ℕ.suc n) [] = []
steps_from (ℕ.suc n) (step ∷ steps) = steps_from n steps

unfoldable pub is_in_state : SprintState → Option SprintRow → Bool
is_in_state state none = false
is_in_state state (some row) = row.state == state

unfoldable pub prepare_row : SprintService → Option SprintRow → Exec Bool
prepare_row s none = pure false
prepare_row s (some row) =
    if not (row.state == SprintState.active)
    then pure false
    else prepare_from s row.manifest row.position (steps_from row.position row.manifest.steps)

-- `prepare_for_project`
unfoldable pub prepare_for_project : SprintService → String → Exec Bool
prepare_for_project s project_id = do
  row ← query (current_for_project project_id)
  prepare_row s row

unfoldable pub first_project : SprintRow → Result String
first_project row = elim row.manifest.steps [
  | [] ↦ err value_error
  | step ∷ rest ↦ ok step.item.project_id
]

-- `prepare`; a manifest has a step
unfoldable pub prepare_current : SprintService → Option SprintRow → Exec Bool
prepare_current s none = pure false
prepare_current s (some row) = do
  project_id ← lift (first_project row)
  prepare_for_project s project_id

unfoldable pub prepare : SprintService → Exec Bool
prepare s = do row ← query current; prepare_current s row

unfoldable pub is_issue_of : TaskSource → MaterializedIssue → Bool
is_issue_of source issue =
    source.provider == "github"
    && source.repository_slug == issue.repository_slug
    && source.issue_number == issue.number

unfoldable pub matches_issue :
    FactoryTask → SprintStep → TaskSource → Option MaterializedIssue → Bool
matches_issue task step source none = false
matches_issue task step source (some issue) =
    step.item.project_id == task.project_id && is_issue_of source issue

unfoldable pub matches_step :
    SprintService → FactoryTask → Option SprintStep → Option TaskSource → Exec Bool
matches_step s task (some step) (some source) = do
  issue ← ask (λ n. s.get_issue n step.item.provider step.item.external_id)
  pure (matches_issue task step source issue)
matches_step s task _ _ = pure false

-- `_matches_current`
unfoldable pub matches_current : SprintService → FactoryTask → SprintRow → Exec Bool
matches_current s task row =
    matches_step s task (step_at row.position row.manifest.steps) task.source

unfoldable pub allows_in :
    SprintService → FactoryTask → (SprintState → Bool) → Option SprintRow → Exec Bool
allows_in s task fits none = pure false
allows_in s task fits (some row) =
    if not (fits row.state) then pure false else matches_current s task row

-- `allows` and `allows_review`
unfoldable pub allows : SprintService → FactoryTask → Exec Bool
allows s task = do
  row ← query (current_for_project task.project_id)
  allows_in s task (λ state. state == SprintState.active) row

unfoldable pub allows_review : SprintService → FactoryTask → Exec Bool
allows_review s task = do
  row ← query (current_for_project task.project_id)
  allows_in s task is_live_state row

unfoldable pub observe_row : FactoryTask → SprintRow → Exec (Unit {0})
observe_row task row =
    if contains stop_statuses task.status
    then move_sprint row.manifest SprintState.paused row.position SprintEvent.paused
    else pure tt

-- `observe`; the sprint that allowed the task is there
unfoldable pub observe : SprintService → Option FactoryTask → Exec (Unit {0})
observe s none = pure tt
observe s (some task) = do
  allowed ← allows s task
  if not allowed then pure tt else (do
    found ← query (current_for_project task.project_id)
    row ← lift (or_raise value_error found)
    observe_row task row)

unfoldable pub first_named : String → List (Option SprintRow) → Option SprintRow
first_named sprint_id [] = none
first_named sprint_id (none ∷ rest) = first_named sprint_id rest
first_named sprint_id (some row ∷ rest) =
    if row.manifest.sprint_id == sprint_id then some row else first_named sprint_id rest

unfoldable pub currents : List String → Db → List (Option SprintRow)
currents [] db = []
currents (id ∷ ids) db = current_for_project id db ∷ currents ids db

-- `_current_by_id`
unfoldable pub current_by_id : String → Db → Option SprintRow
current_by_id sprint_id db = first_named sprint_id (currents (live_projects db) db)

-- The sprint's row, where it is in a fitting state.
unfoldable pub require_sprint : String → (SprintState → Bool) → Exec SprintRow
require_sprint sprint_id fits = do
  found ← query (current_by_id sprint_id)
  row ← lift (or_raise value_error found)
  if not (fits row.state) then raise value_error else pure row

-- `cancel` and `pause`
unfoldable pub cancel : String → Exec (Unit {0})
cancel sprint_id = do
  row ← require_sprint sprint_id is_live_state
  move_sprint row.manifest SprintState.cancelled row.position SprintEvent.cancelled

unfoldable pub pause : String → Exec (Unit {0})
pause sprint_id = do
  row ← require_sprint sprint_id (λ state. state == SprintState.active)
  move_sprint row.manifest SprintState.paused row.position SprintEvent.paused

unfoldable pub resume_step : SprintService → SprintRow → SprintStep → Exec (Unit {0})
resume_step s row step = do
  task ← task_for s step.item
  if is_stopped task then raise value_error else (do
    reply ← ask (λ n. s.get_item n step.item.external_id)
    actual ← lift reply
    if not (same_item actual step.item) then raise value_error else (do
      complete ← is_complete s row.manifest row.position
      if not complete
          then raise value_error
          else move_sprint row.manifest SprintState.active row.position SprintEvent.resumed))

-- `resume`; a position past the last step raises an `IndexError`
unfoldable pub resume : SprintService → String → Exec (Unit {0})
resume s sprint_id = do
  row ← require_sprint sprint_id (λ state. state == SprintState.paused)
  step ← lift (or_raise value_error (step_at row.position row.manifest.steps))
  resume_step s row step

unfoldable pub release : SprintService → SprintRow → Option FactoryTask → Exec (Unit {0})
release s row task = if not (is_done task) then pure tt else (do
  recorded ← completed_by s row.manifest s.is_completed task
  if not recorded
      then pure tt
      else move_sprint row.manifest SprintState.active row.position SprintEvent.resumed)

unfoldable pub resume_row : SprintService → SprintRow → Option SprintStep → Exec (Unit {0})
resume_row s row none = pure tt
resume_row s row (some step) = do task ← task_for s step.item; release s row task

unfoldable pub resume_paused : SprintService → Option SprintRow → Exec (Unit {0})
resume_paused s none = pure tt
resume_paused s (some row) =
    if not (row.state == SprintState.paused)
    then pure tt
    else resume_row s row (step_at row.position row.manifest.steps)

-- `resume_completed_for`
unfoldable pub resume_completed_for : SprintService → String → Exec (Unit {0})
resume_completed_for s project_id = do
  row ← query (current_for_project project_id)
  resume_paused s row

unfoldable pub resume_each : SprintService → List String → Exec (Unit {0})
resume_each s [] = pure tt
resume_each s (id ∷ ids) = let rest = resume_each s ids in resume_completed_for s id >> rest

-- `resume_completed`
unfoldable pub resume_completed : SprintService → Exec (Unit {0})
resume_completed s = do ids ← query live_projects; resume_each s ids
