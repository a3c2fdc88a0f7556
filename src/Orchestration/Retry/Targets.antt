-- ===== src/Orchestration/Retry/Targets.antt =====
-- What a granted request of src/factory/orchestration/retry.py has established.
use ai_factory_lab.Common.{
  ◌<◌, String, ◌≡◌, ap, sym, ◌∙◌, Bool, true, false, Option, none, some, List, inl, inr, arith,
  Option-cases, Bool-cases, contains, count, last?, leb, is_some, ◌⊎◌,
}
use ai_factory_lab.Domain.Enums.{TaskStatus, task_status_eq}
use ai_factory_lab.Domain.Models.{FactoryTask, AgentRun}
use ai_factory_lab.Domain.Errors.{ok, err, or_raise, retry_not_allowed}
use ai_factory_lab.Store.{Db, find_task}
use ai_factory_lab.Store.Tasks
use ai_factory_lab.Store.Runs.{find_active_run, list_runs}
use ai_factory_lab.Exec.{Ports, World, raise, ◌>>=◌}
use ai_factory_lab.Exec.Ensures.{Ensures, Ensures-then, Ensures_result}
use ai_factory_lab.Orchestration.Transitions.{require_task}
use ai_factory_lab.Orchestration.Transitions.Arrived.{Arrived, transition-Arrived}
use ai_factory_lab.Orchestration.Recovery.{
  RecoveryPolicy, classify_retry, retryable_statuses, is_publication_retry,
}
use ai_factory_lab.Orchestration.Retry.Publications.{
  IsBlockedPublication, retry-IsBlockedPublication, IsBlockedPublication-retry,
}
use ai_factory_lab.Orchestration.Retry.{
  retry, retry_task, retry_idle, resume, retry_target, is_retryable, is_non_recoverable,
  check_backoff, release_claim,
}

-- The conditions on what is stored under which a retry is granted.
pub record IsGranted (policy : RecoveryPolicy) (task : FactoryTask) (db : Db) : Type 0 where
  pub retryable : contains retryable_statuses task.status ≡ true
  pub no_active_run : find_active_run task.task_id db ≡ none
  pub recoverable :
      is_non_recoverable (
        classify_retry task
          (last? (list_runs task.task_id db))
          (is_some (Tasks.latest_rework_feedback task.task_id db)))
      ≡ false
  pub within_limit : count is_retryable (list_runs task.task_id db) < policy.run_retry_limit

module _ (p : Ports) (policy : RecoveryPolicy) (task : FactoryTask) where
  resume-Arrived :
      (history : List AgentRun) (rework_claim : Bool)
      → Ensures
          (Arrived task.task_id (retry_target task (last? history)))
          (resume p policy task history rework_claim)
  unfolding resume
  resume-Arrived history rework_claim = Ensures-then (check_backoff p policy history) _ (λ _.
      Ensures-then (release_claim p task rework_claim (last? history)) _ (λ _.
        transition-Arrived p task.task_id (retry_target task (last? history))
          (some TaskStatus.blocked)))

  module _ (w : World) where
    idle-Arrived :
        {after : FactoryTask} (history : List AgentRun) (rework_claim : Bool)
        → (retry_idle p policy task history rework_claim w).0 ≡ ok after
        → (is_non_recoverable (classify_retry task (last? history) rework_claim) ≡ false)
          × (count is_retryable history < policy.run_retry_limit)
          × Arrived task.task_id (retry_target task (last? history)) after
    unfolding retry_idle raise
    idle-Arrived {after} history rework_claim granted =
        elim (Bool-cases (is_non_recoverable (classify_retry task (last? history) rework_claim))) [
          | inl hopeless ↦ cc (rw hopeless at granted)
          | inr hopeful ↦
              elim (Bool-cases (leb policy.run_retry_limit (count is_retryable history))) [
                | inl spent ↦ cc (rw (hopeful, spent) at granted)
                | inr room ↦ (
                  hopeful,
                  ground (arith, room),
                  Ensures_result (resume p policy task history rework_claim)
                      (resume-Arrived history rework_claim) w (rw (hopeful, room) at granted),
                )
              ]
        ]

    no-active :
        contains retryable_statuses task.status ≡ true
        → find_active_run task.task_id w.db ≡ none
        → retry_task p policy task w
          ≡ retry_idle p policy task
              (list_runs task.task_id w.db)
              (is_some (Tasks.latest_rework_feedback task.task_id w.db))
              w
    unfolding retry_task ◌>>=◌
    no-active retryable idle = rw (retryable, idle)

    busy-refused :
        contains retryable_statuses task.status ≡ true
        → {run : AgentRun} → find_active_run task.task_id w.db ≡ some run
        → retry_task p policy task w ≡ (err retry_not_allowed, w)
    unfolding retry_task ◌>>=◌
    busy-refused retryable busy = rw (retryable, busy)

    status-refused :
        contains retryable_statuses task.status ≡ false
        → retry_task p policy task w ≡ (err retry_not_allowed, w)
    unfolding retry_task raise
    status-refused other = rw other

    task-IsGranted :
        {after : FactoryTask}
        → (retry_task p policy task w).0 ≡ ok after
        → IsGranted policy task w.db
          × Arrived task.task_id (retry_target task (last? (list_runs task.task_id w.db))) after
    task-IsGranted {after} granted = elim (Bool-cases (contains retryable_statuses task.status)) [
      | inr other ↦ cc (ap (λ r. r.0) (status-refused other), granted)
      | inl retryable ↦ elim (Option-cases (find_active_run task.task_id w.db)) [
        | inr (run, busy) ↦ cc (ap (λ r. r.0) (busy-refused retryable busy), granted)
        | inl idle ↦
            let (recoverable, within_limit, arrived) =
              idle-Arrived (list_runs task.task_id w.db) _
                (ap (λ r. r.0) (sym (no-active retryable idle)) ∙ granted) in
            (
              record {
                retryable = retryable;
                no_active_run = idle;
                recoverable = recoverable;
                within_limit = within_limit;
              },
              arrived,
            )
      ]
    ]

-- The status that a retry resumes in, by what the newest run was.
target_fits :
    (task : FactoryTask) (latest : Option AgentRun) (status : TaskStatus)
    → status ≡ retry_target task latest
    → (IsBlockedPublication task latest × (status ≡ TaskStatus.validating))
      ⊎ ((¬ IsBlockedPublication task latest) × (status ≡ TaskStatus.ready))
unfolding retry_target
target_fits task latest status h = elim (Bool-cases (is_publication_retry task latest)) [
  | inl resumed ↦ inl (retry-IsBlockedPublication task latest resumed, rw resumed at h)
  | inr other ↦
      inr (λ publication. cc (IsBlockedPublication-retry task publication, other), rw other at h)
]

-- Where `retry` returns, the stored task was BLOCKED or CLAIMED without an active run, its newest run
-- was recoverable and the counted attempts were below the limit; and the task that it returns is the
-- named one, in VALIDATING if it was blocked by the publication of its newest run, which succeeded
-- with green gates at a revision and in a workspace of the task's own project and repository, and in
-- READY if not.
pub retry-IsGranted :
    (p : Ports) (policy : RecoveryPolicy) (task_id : String) (w : World) {task after : FactoryTask}
    → find_task task_id w.db ≡ some task
    → (retry p policy task_id w).0 ≡ ok after
    → let latest = last? (list_runs task.task_id w.db) in
      IsGranted policy task w.db
      × (after.task_id ≡ task.task_id)
      × ((IsBlockedPublication task latest × (after.status ≡ TaskStatus.validating))
          ⊎ ((¬ IsBlockedPublication task latest) × (after.status ≡ TaskStatus.ready)))
unfolding retry require_task ◌>>=◌
retry-IsGranted p policy task_id w {task} {after} found granted =
    let (conditions, arrived) =
      task-IsGranted p policy task w {after = after} (rw (found, or_raise) at granted) in
    (
      conditions,
      arrived.named,
      target_fits task (last? (list_runs task.task_id w.db)) after.status arrived.status,
    )
