-- ===== src/Orchestration/Publication/Outcomes.antt =====
-- What `_reconcile` of src/factory/orchestration/publication.py comes to, and the branches of
-- `publish` that publish nothing.
use ai_factory_lab.Common.{
  suc, String, ◌≡◌, refl, Bool, true, false, ◌||◌, ◌&&◌, Option, none, some, inl, inr, ◌==◌,
  string_eq, option_eq, Bool-cases, arith, is_some, ◌∙◌, sym, subst, ap, ==_false,
}
use ai_factory_lab.Domain.Enums.{
  TaskStatus, RunStatus, ValidationOutcome, task_status_eq, run_status_eq, validation_outcome_eq,
}
use ai_factory_lab.Domain.Models.{FactoryTask, AgentRun, Workspace, PullRequest, validation_outcome}
use ai_factory_lab.Domain.Lifecycle.{can_transition}
use ai_factory_lab.Domain.Errors.{ok, err, or_raise, task_not_publishable}
use ai_factory_lab.Store.{find_task}
use ai_factory_lab.Store.Runs.{get_run, list_runs}
use ai_factory_lab.Store.Pulls.{get_for_run}
use ai_factory_lab.Store.Tasks.{idle_guard, set_status}
use ai_factory_lab.Store.Tasks.Writes.{find_task-write_self}
use ai_factory_lab.Exec.{Ports, World, pure, raise, ◌>>=◌, attempt}
use ai_factory_lab.Orchestration.Transitions.{transition, require_task}
use ai_factory_lab.Orchestration.Transitions.Branches.{transition_branches, moved}
use ai_factory_lab.Orchestration.Transitions.Arrived.{find_task-named}
use ai_factory_lab.Orchestration.Tracking.Refresh.{is_latest_run}
use ai_factory_lab.Orchestration.Publication.Guards.{
  PublicationService, require_publishable, require_run, own_run, check_workspace, base_ref_for,
  security_review,
}
use ai_factory_lab.Orchestration.Publication.Pulls.{
  is_persisted_for, rework_pull_request, existing_pull_request, persisted_pull,
}
use ai_factory_lab.Orchestration.Publication.{
  step_from, stored_status, reconcile_published, publish, publish_run, concluded, publish_rework,
  publish_existing,
}

module _ (p : Ports) (task_id : String) (w : World) (from target : TaskStatus) where
  -- A pair of statuses that a publication moves a task along.
  abbrev IsStep : Type 0
  IsStep =
      (can_transition from target ≡ true)
      × ((from == target) ≡ false)
      × ((target == TaskStatus.claimed) ≡ false)

  transition_taken :
      {task : FactoryTask}
      → IsStep
      → find_task task_id w.db ≡ some task
      → task.status ≡ from
      → transition p task_id target none w
        ≡ (ok (set_status target (p.now w.tick) task), moved p task_id target w from)
  unfolding idle_guard
  transition_taken {task} (edge, differs, no_claim) found here =
      (transition_branches p task_id target w found).2
        (λ same. ==_false from target differs (sym here ∙ same))
        (ap (λ f. can_transition f target) here ∙ edge) (rw no_claim refl)
      ∙ ap (λ f. (ok (set_status target (p.now w.tick) task), moved p task_id target w f)) here

  -- The edges of a publication are no claims, so they are never held back by the claim limit.
  step_taken :
      {task : FactoryTask}
      → IsStep
      → find_task task_id w.db ≡ some task
      → task.status ≡ from
      → step_from p task_id from target (some task) w ≡ (ok true, moved p task_id target w from)
  unfolding step_from attempt pure ◌>>=◌
  step_taken {task} step found here =
      rw ((task_status_eq.beq_iff task.status from).1 here)
        (rw (transition_taken step found here) refl)

step_left :
    (p : Ports) (task_id : String) (w : World) (from target : TaskStatus) (task : FactoryTask)
    → (task.status == from) ≡ false
    → step_from p task_id from target (some task) w ≡ (ok false, w)
unfolding step_from pure
step_left p task_id w from target task other = rw other

opening : can_transition TaskStatus.validating TaskStatus.pr_open ≡ true
unfolding can_transition
opening = refl

handing : can_transition TaskStatus.pr_open TaskStatus.waiting_human ≡ true
unfolding can_transition
handing = refl

module _ (p : Ports) (task_id : String) (w : World) where
  -- The world after PR_OPEN was left for WAITING_HUMAN, and after both edges.
  abbrev pub handed : World
  handed = moved p task_id TaskStatus.waiting_human w TaskStatus.pr_open

  abbrev pub opened_and_handed : World
  opened_and_handed =
      moved p task_id TaskStatus.waiting_human
        (moved p task_id TaskStatus.pr_open w TaskStatus.validating) TaskStatus.pr_open

  abbrev w_opened : World
  w_opened = moved p task_id TaskStatus.pr_open w TaskStatus.validating

module _ (p : Ports) (task_id : String) (w : World) {task : FactoryTask}
    (found : find_task task_id w.db ≡ some task) where
  after_handing :
      (v : World) {row : FactoryTask}
      → find_task task_id v.db ≡ some row
      → row.status ≡ TaskStatus.pr_open
      → find_task task_id (moved p task_id TaskStatus.waiting_human v TaskStatus.pr_open).db
        ≡ some (set_status TaskStatus.waiting_human (p.now v.tick) row)
  after_handing v stored here =
      find_task-write_self task_id TaskStatus.pr_open TaskStatus.waiting_human (p.now v.tick)
        (p.uuid (suc v.tick)) v.db stored here

  opened_task :
      task.status ≡ TaskStatus.validating
      → find_task task_id (w_opened p task_id w).db
        ≡ some (set_status TaskStatus.pr_open (p.now w.tick) task)
  opened_task here =
      find_task-write_self task_id TaskStatus.validating TaskStatus.pr_open (p.now w.tick)
        (p.uuid (suc w.tick)) w.db found here

  reconcile-pr_open :
      task.status ≡ TaskStatus.pr_open
      → reconcile_published p task_id w ≡ (ok (TaskStatus.waiting_human, true), handed p task_id w)
  unfolding reconcile_published require_task ◌>>=◌
  reconcile-pr_open here =
      rw (found, or_raise)
        (rw (step_left p task_id w TaskStatus.validating TaskStatus.pr_open task (rw here refl)) (
          rw
            (
              found,
              step_taken p task_id w TaskStatus.pr_open TaskStatus.waiting_human
                  (handing, refl, refl) found here,
            )
            (unfold stored_status set_status in rw (after_handing w found here) refl)))

  reconcile-validating :
      task.status ≡ TaskStatus.validating
      → reconcile_published p task_id w
        ≡ (ok (TaskStatus.waiting_human, true), opened_and_handed p task_id w)
  unfolding reconcile_published require_task ◌>>=◌
  reconcile-validating here =
      rw (found, or_raise)
        (rw
          (step_taken p task_id w TaskStatus.validating TaskStatus.pr_open (opening, refl, refl)
            found here)
          (unfold stored_status set_status in
            rw
              (
                opened_task here,
                step_taken p task_id (w_opened p task_id w) TaskStatus.pr_open
                    TaskStatus.waiting_human (handing, refl, refl) (opened_task here) refl,
              )
              (rw (after_handing (w_opened p task_id w) (opened_task here) refl) refl)))

  reconcile-elsewhere :
      (task.status == TaskStatus.validating) ≡ false
      → (task.status == TaskStatus.pr_open) ≡ false
      → reconcile_published p task_id w ≡ (ok (task.status, false), w)
  unfolding reconcile_published require_task ◌>>=◌ stored_status
  reconcile-elsewhere not_validating not_open =
      rw (found, or_raise)
        (rw (step_left p task_id w TaskStatus.validating TaskStatus.pr_open task not_validating) (
          rw
            (found, step_left p task_id w TaskStatus.pr_open TaskStatus.waiting_human task not_open)
            (rw found refl)))

-- What `_reconcile` comes to for a stored task: from VALIDATING the two edges to PR_OPEN and to
-- WAITING_HUMAN are written, from PR_OPEN the second one, whatever the claim limit; from any other
-- status nothing is written and the status is reported as it is.
pub reconcile_published_branches :
    (p : Ports) (task_id : String) (w : World) {task : FactoryTask}
    → find_task task_id w.db ≡ some task
    → (task.status ≡ TaskStatus.validating
        → reconcile_published p task_id w
          ≡ (ok (TaskStatus.waiting_human, true), opened_and_handed p task_id w))
      × (task.status ≡ TaskStatus.pr_open
          → reconcile_published p task_id w
            ≡ (ok (TaskStatus.waiting_human, true), handed p task_id w))
      × ((task.status == TaskStatus.validating || task.status == TaskStatus.pr_open) ≡ false
          → reconcile_published p task_id w ≡ (ok (task.status, false), w))
reconcile_published_branches p task_id w {task} found = (
  reconcile-validating p task_id w found,
  reconcile-pr_open p task_id w found,
  λ elsewhere.
      reconcile-elsewhere p task_id w found (ground (arith, elsewhere)) (ground (arith, elsewhere)),
)

module _ (s : PublicationService) (task : FactoryTask) (run : AgentRun) (w : World) where
  no_workspace :
      (workspace : Option Workspace)
      → is_some workspace ≡ false
      → check_workspace s task run workspace w
        ≡ (err (task_not_publishable task.task_id run.run_id), w)
  unfolding check_workspace raise
  no_workspace none absent = refl
  no_workspace (some workspace) absent = cc

  abbrev is_fit : Bool
  is_fit =
      is_latest_run run (list_runs run.task_id w.db)
      && run.status == RunStatus.succeeded
      && validation_outcome run == ValidationOutcome.ready_for_next_phase
      && is_some run.workspace

  require_publishable-refused :
      is_fit ≡ false
      → require_publishable s task run w ≡ (err (task_not_publishable task.task_id run.run_id), w)
  unfolding require_publishable raise ◌>>=◌
  require_publishable-refused unfit =
      elim (Bool-cases (is_latest_run run (list_runs run.task_id w.db))) [
        | inr superseded ↦ rw superseded
        | inl latest ↦ elim (Bool-cases (run.status == RunStatus.succeeded)) [
          | inr unsuccessful ↦ rw (latest, unsuccessful)
          | inl succeeded ↦
              elim (Bool-cases (validation_outcome run == ValidationOutcome.ready_for_next_phase)) [
                | inr red ↦ rw (latest, succeeded, red)
                | inl green ↦
                    rw (latest, succeeded, green)
                      (no_workspace run.workspace (ground (arith, unfit, latest, succeeded, green)))
              ]
        ]
      ]

module _ (p : Ports) (task_id : String) (w : World) {task : FactoryTask} where
  concluded-waiting :
      find_task task_id w.db ≡ some task
      → (task.status == TaskStatus.waiting_human) ≡ true
      → (pr : PullRequest)
      → concluded p task pr w
        ≡ (ok (record { pull_request = pr; task_status = task.status; opened_now = false }), w)
  unfolding concluded ◌>>=◌ pure
  concluded-waiting found waits pr =
      rw
        (subst (λ id. reconcile_published p id w ≡ (ok (task.status, false), w))
          (sym (find_task-named task_id w.db found))
          ((reconcile_published_branches p task_id w found).2 (
            ground (arith, (task_status_eq.beq_iff task.status TaskStatus.waiting_human).0 waits))))
        refl

module _ (s : PublicationService) (task : FactoryTask) (run : AgentRun) (w : World) where
  security_review-waiting :
      (task.status == TaskStatus.waiting_human) ≡ true → security_review s task run w ≡ (ok tt, w)
  unfolding security_review pure
  security_review-waiting waits = rw waits

  module _ (workspace : Workspace) (pr : PullRequest)
      (stored : get_for_run run.run_id w.db ≡ some pr) where
    rework-stored : rework_pull_request s task run workspace w ≡ (ok none, w)
    unfolding rework_pull_request pure ◌>>=◌
    rework-stored = rw stored refl

    existing-stored :
        (base : String)
        → base_ref_for s task ≡ ok base
        → is_persisted_for s task run workspace base pr ≡ true
        → existing_pull_request s task run workspace w ≡ (ok (some pr), w)
    unfolding existing_pull_request persisted_pull pure ◌>>=◌
    existing-stored base based placed = rw stored (rw based (rw placed refl))

module _ (p : Ports) (s : PublicationService) (task_id run_id : String) (w : World)
    {task : FactoryTask} {run : AgentRun} where
  publish-read :
      find_task task_id w.db ≡ some task
      → get_run run_id w.db ≡ some run
      → (run.task_id == task_id) ≡ true
      → publish p s task_id run_id w ≡ publish_run p s task run w
  unfolding publish require_task require_run own_run ◌>>=◌
  publish-read found attempted own = rw (found, attempted, or_raise) (rw own refl)

  -- A run that is not its task's newest, did not succeed, did not pass its gates or has no workspace is
  -- refused, and nothing is written, asked, pushed or opened.
  pub publish-refused :
      find_task task_id w.db ≡ some task
      → get_run run_id w.db ≡ some run
      → (run.task_id == task_id) ≡ true
      → is_fit s task run w ≡ false
      → publish p s task_id run_id w ≡ (err (task_not_publishable task.task_id run.run_id), w)
  unfolding publish_run ◌>>=◌
  publish-refused found attempted own unfit =
      publish-read found attempted own ∙ rw (require_publishable-refused s task run w unfit) refl

  -- A second publication of a run that is still publishable (`require_publishable` accepts it, so it is
  -- its task's newest, succeeded, passed its gates and has its workspace), whose pull request is
  -- stored and is the one that the run would publish, and whose task waits for the human, returns
  -- that pull request, pushes nothing, opens nothing and leaves the world as it was.
  pub publish-again :
      {workspace : Workspace} {base : String} {pr : PullRequest}
      → find_task task_id w.db ≡ some task
      → get_run run_id w.db ≡ some run
      → (run.task_id == task_id) ≡ true
      → (task.status == TaskStatus.waiting_human) ≡ true
      → require_publishable s task run w ≡ (ok workspace, w)
      → base_ref_for s task ≡ ok base
      → get_for_run run.run_id w.db ≡ some pr
      → is_persisted_for s task run workspace base pr ≡ true
      → publish p s task_id run_id w
        ≡ (ok (record { pull_request = pr; task_status = task.status; opened_now = false }), w)
  unfolding publish_run ◌>>=◌ publish_rework publish_existing
  publish-again {workspace = workspace} {base = base} {pr = pr} found attempted own waits fit based
        stored placed =
      publish-read found attempted own
      ∙ rw fit (
          rw (security_review-waiting s task run w waits) (
            rw (rework-stored s task run w workspace pr stored) (
              rw (existing-stored s task run w workspace pr stored base based placed)
                (concluded-waiting p task_id w found waits pr))))
