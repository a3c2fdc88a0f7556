-- ===== src/Orchestration/Sprint/Kept.antt =====
-- What the calls of src/factory/orchestration/sprint.py keep of the stored sprints.
use ai_factory_lab.Common.{
  ℕ, suc, String, not, is_empty, Bool, false, Option, none, some, List, [], ◌∷◌,
}
use ai_factory_lab.Domain.Models.{TaskSource, FactoryTask}
use ai_factory_lab.Domain.Sprints.{
  WorkItem, MaterializedIssue, SprintState, SprintStep, SprintManifest,
}
use ai_factory_lab.Store.{Db, SprintRow}
use ai_factory_lab.Store.Sprints.{SprintEvent, move, authorize}
use ai_factory_lab.Exec.{Exec}
use ai_factory_lab.Exec.Keeps.{Keeps, keeps_rules, Keeps-transact, Keeps-bind, Keeps-if, Keeps-pure}
use ai_factory_lab.Orchestration.Sprint.Ports.{
  SprintService, task_of, task_for, dependency_done, dependencies_done, step_complete, is_complete,
}
use ai_factory_lab.Orchestration.Sprint.{
  is_done, is_stopped, move_sprint, pause_at, completed_by, pass_step, finish_step, materialized,
  select_step, open_step, optional_task, prepare_from, prepare_row, prepare_for_project,
  matches_step, matches_current, allows_in, allows, observe_row, observe, require_sprint, cancel,
  pause, resume_step, resume, release, resume_row, resume_paused, resume_completed_for, resume_each,
  resume_completed,
}

-- A property of the database that every write of a sprint keeps.
pub record IsSprintStable (P : Db → Type 0) : Type 0 where
  pub moved :
      (sprint_id : String) (state : SprintState) (position : ℕ) (event : SprintEvent) (db : Db)
      → P db
      → P (move sprint_id state position event db).1
  pub authorized : (manifest : SprintManifest) (db : Db) → P db → P (authorize manifest db).1

module _ {P : Db → Type 0} (stable : IsSprintStable P) where
  move_sprint-Keeps :
      (manifest : SprintManifest) (state : SprintState) (position : ℕ) (event : SprintEvent)
      → Keeps P (move_sprint manifest state position event)
  unfolding move_sprint
  move_sprint-Keeps manifest state position event =
      Keeps-transact _ (λ db. stable.moved manifest.sprint_id state position event db)

  pause_at-Keeps : (manifest : SprintManifest) (position : ℕ) → Keeps P (pause_at manifest position)
  unfolding pause_at
  pause_at-Keeps manifest position = search (keeps_rules, move_sprint-Keeps)

  module _ (s : SprintService) where
    task_of-Keeps : (issue : Option MaterializedIssue) → Keeps P (task_of issue)
    unfolding task_of
    task_of-Keeps none = search keeps_rules
    task_of-Keeps (some issue) = search keeps_rules

    task_for-Keeps : (item : WorkItem) → Keeps P (task_for s item)
    unfolding task_for
    task_for-Keeps item = search (keeps_rules, task_of-Keeps)

    dependency_done-Keeps : (item : Option WorkItem) → Keeps P (dependency_done s item)
    unfolding dependency_done
    dependency_done-Keeps none = search keeps_rules
    dependency_done-Keeps (some item) = search (keeps_rules, task_for-Keeps)

    dependencies_done-Keeps :
        (preceding : List SprintStep) (names : List String)
        → Keeps P (dependencies_done s preceding names)
    unfolding dependencies_done
    dependencies_done-Keeps preceding [] = search keeps_rules
    dependencies_done-Keeps preceding (name ∷ names) =
        let later = dependencies_done-Keeps preceding names in
        Keeps-bind _ _ (dependency_done-Keeps _)
          (λ done. Keeps-if (not done) _ _ (Keeps-pure false) later)

    step_complete-Keeps :
        (preceding : List SprintStep) (step : Option SprintStep)
        → Keeps P (step_complete s preceding step)
    unfolding step_complete
    step_complete-Keeps preceding none = search keeps_rules
    step_complete-Keeps preceding (some step) = search (keeps_rules, dependencies_done-Keeps)

    is_complete-Keeps :
        (manifest : SprintManifest) (position : ℕ) → Keeps P (is_complete s manifest position)
    unfolding is_complete
    is_complete-Keeps manifest position = step_complete-Keeps _ _

    module _ (manifest : SprintManifest) where
      completed_by-Keeps :
          (is_completed : Option (ℕ → String → Bool)) (task : Option FactoryTask)
          → Keeps P (completed_by s manifest is_completed task)
      unfolding completed_by
      completed_by-Keeps (some is_completed) (some task) = search keeps_rules
      completed_by-Keeps (some is_completed) none = search keeps_rules
      completed_by-Keeps none task = search keeps_rules

      pass_step-Keeps :
          (position : ℕ) (at_end : Bool) (next : Exec Bool)
          → Keeps P next
          → Keeps P (pass_step s manifest position at_end next)
      unfolding pass_step
      pass_step-Keeps position at_end next later =
          Keeps-if at_end _ _ (Keeps-bind _ _ (move_sprint-Keeps manifest _ _ _) (λ _. later))
            (Keeps-bind _ _ (move_sprint-Keeps manifest _ _ _) (λ _. later))

      finish_step-Keeps :
          (position : ℕ) (task : Option FactoryTask) (at_end : Bool) (next : Exec Bool)
          → Keeps P next
          → Keeps P (finish_step s manifest position task at_end next)
      unfolding finish_step
      finish_step-Keeps position task at_end next later =
          Keeps-bind _ _ (completed_by-Keeps s.is_completed task) (λ recorded.
            Keeps-if (not recorded) _ _ (pause_at-Keeps manifest position)
              (pass_step-Keeps position at_end next later))

      materialized-Keeps :
          (item : WorkItem) (issue : Option MaterializedIssue)
          → Keeps P (materialized s manifest item issue)
      unfolding materialized
      materialized-Keeps item none = search keeps_rules
      materialized-Keeps item (some issue) = search keeps_rules

      select_step-Keeps :
          (position : ℕ) (issue : Option MaterializedIssue)
          → Keeps P (select_step s manifest position issue)
      unfolding select_step
      select_step-Keeps position none = search keeps_rules
      select_step-Keeps position (some issue) = search (keeps_rules, move_sprint-Keeps)

      open_step-Keeps :
          (position : ℕ) (item : WorkItem) (issue : Option MaterializedIssue)
          → Keeps P (open_step s manifest position item issue)
      unfolding open_step
      open_step-Keeps position item issue =
          search
            (keeps_rules, pause_at-Keeps, is_complete-Keeps, materialized-Keeps, select_step-Keeps)
            depth 12

      optional_task-Keeps :
          (item : WorkItem) (issue : Option MaterializedIssue)
          → Keeps P (optional_task s manifest item issue)
      unfolding optional_task
      optional_task-Keeps item none = search keeps_rules
      optional_task-Keeps item (some issue) = task_for-Keeps item

      prepare_from-Keeps :
          (position : ℕ) (steps : List SprintStep)
          → Keeps P (prepare_from s manifest position steps)
      unfolding prepare_from
      prepare_from-Keeps position [] = search keeps_rules
      prepare_from-Keeps position (step ∷ rest) = Keeps-bind _ _ (search keeps_rules) (λ issue.
          Keeps-bind _ _ (optional_task-Keeps step.item issue) (λ task.
            Keeps-if (is_done task) _ _
              (finish_step-Keeps position task (is_empty rest) _
                (prepare_from-Keeps (suc position) rest))
              (Keeps-if (is_stopped task) _ _ (pause_at-Keeps manifest position)
                (open_step-Keeps position step.item issue))))

    prepare_row-Keeps : (row : Option SprintRow) → Keeps P (prepare_row s row)
    unfolding prepare_row
    prepare_row-Keeps none = search keeps_rules
    prepare_row-Keeps (some row) = search (keeps_rules, prepare_from-Keeps)

    pub prepare_for_project-Keeps :
        (project_id : String) → Keeps P (prepare_for_project s project_id)
    unfolding prepare_for_project
    prepare_for_project-Keeps project_id = search (keeps_rules, prepare_row-Keeps)

    matches_step-Keeps :
        (task : FactoryTask) (step : Option SprintStep) (source : Option TaskSource)
        → Keeps P (matches_step s task step source)
    unfolding matches_step
    matches_step-Keeps task (some step) (some source) = search keeps_rules
    matches_step-Keeps task (some step) none = search keeps_rules
    matches_step-Keeps task none source = search keeps_rules

    allows_in-Keeps :
        (task : FactoryTask) (fits : SprintState → Bool) (row : Option SprintRow)
        → Keeps P (allows_in s task fits row)
    unfolding allows_in matches_current
    allows_in-Keeps task fits none = search keeps_rules
    allows_in-Keeps task fits (some row) = search (keeps_rules, matches_step-Keeps)

    allows-Keeps : (task : FactoryTask) → Keeps P (allows s task)
    unfolding allows
    allows-Keeps task = search (keeps_rules, allows_in-Keeps)

    observe_row-Keeps : (task : FactoryTask) (row : SprintRow) → Keeps P (observe_row task row)
    unfolding observe_row
    observe_row-Keeps task row = search (keeps_rules, move_sprint-Keeps)

    pub observe-Keeps : (task : Option FactoryTask) → Keeps P (observe s task)
    unfolding observe
    observe-Keeps none = search keeps_rules
    observe-Keeps (some task) = search (keeps_rules, allows-Keeps, observe_row-Keeps) depth 10

    require_sprint-Keeps :
        (sprint_id : String) (fits : SprintState → Bool) → Keeps P (require_sprint sprint_id fits)
    unfolding require_sprint
    require_sprint-Keeps sprint_id fits = search keeps_rules depth 8

    pub cancel-Keeps : (sprint_id : String) → Keeps P (cancel sprint_id)
    unfolding cancel
    cancel-Keeps sprint_id = search (keeps_rules, require_sprint-Keeps, move_sprint-Keeps)

    pub pause-Keeps : (sprint_id : String) → Keeps P (pause sprint_id)
    unfolding pause
    pause-Keeps sprint_id = search (keeps_rules, require_sprint-Keeps, move_sprint-Keeps)

    resume_step-Keeps : (row : SprintRow) (step : SprintStep) → Keeps P (resume_step s row step)
    unfolding resume_step
    resume_step-Keeps row step =
        search (keeps_rules, task_for-Keeps, is_complete-Keeps, move_sprint-Keeps) depth 12

    pub resume-Keeps : (sprint_id : String) → Keeps P (resume s sprint_id)
    unfolding resume
    resume-Keeps sprint_id = search (keeps_rules, require_sprint-Keeps, resume_step-Keeps) depth 8

    release-Keeps : (row : SprintRow) (task : Option FactoryTask) → Keeps P (release s row task)
    unfolding release
    release-Keeps row task = search (keeps_rules, completed_by-Keeps, move_sprint-Keeps) depth 10

    resume_row-Keeps :
        (row : SprintRow) (step : Option SprintStep) → Keeps P (resume_row s row step)
    unfolding resume_row
    resume_row-Keeps row none = search keeps_rules
    resume_row-Keeps row (some step) = search (keeps_rules, task_for-Keeps, release-Keeps)

    resume_paused-Keeps : (row : Option SprintRow) → Keeps P (resume_paused s row)
    unfolding resume_paused
    resume_paused-Keeps none = search keeps_rules
    resume_paused-Keeps (some row) = search (keeps_rules, resume_row-Keeps)

    resume_completed_for-Keeps : (project_id : String) → Keeps P (resume_completed_for s project_id)
    unfolding resume_completed_for
    resume_completed_for-Keeps project_id = search (keeps_rules, resume_paused-Keeps)

    resume_each-Keeps : (ids : List String) → Keeps P (resume_each s ids)
    unfolding resume_each
    resume_each-Keeps [] = search keeps_rules
    resume_each-Keeps (id ∷ ids) =
        Keeps-bind _ _ (resume_completed_for-Keeps id) (λ _. resume_each-Keeps ids)

    pub resume_completed-Keeps : Keeps P (resume_completed s)
    unfolding resume_completed
    resume_completed-Keeps = search (keeps_rules, resume_each-Keeps)
