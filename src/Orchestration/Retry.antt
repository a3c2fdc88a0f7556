-- ===== src/Orchestration/Retry.antt =====
-- src/factory/orchestration/retry.py: an operator's request to try a task again.
pub mod Publications
pub mod Targets
use ai_factory_lab.Common.{
  ℕ, ◌+◌, String, Bool, true, false, not, ◌&&◌, ◌||◌, Option, none, some, List, [], ◌∷◌, ◌==◌,
  nat_eq, if◌then◌else◌, contains, count, last?, leb, ltb, is_some,
}
use ai_factory_lab.Domain.Enums.{
  TaskStatus, RunStatus, ValidationOutcome, task_status_eq, run_status_eq, validation_outcome_eq,
}
use ai_factory_lab.Domain.Models.{FactoryTask, AgentRun, is_terminal, validation_outcome}
use ai_factory_lab.Domain.Errors.{Result, ok, err, retry_not_allowed}
use ai_factory_lab.Store.Tasks
use ai_factory_lab.Store.Runs.{find_active_run, list_runs}
use ai_factory_lab.Exec.{Ports, Exec, pure, raise, lift, query, ask, ◌>>=◌, ◌>>◌}
use ai_factory_lab.Orchestration.Transitions.{require_task, transition}
use ai_factory_lab.Orchestration.Recovery.{
  FailureClass, RecoveryPolicy, classify_retry, is_publication_retry, delay_for, retryable_statuses,
}

abbrev pub is_non_recoverable : FailureClass → Bool
is_non_recoverable FailureClass.non_recoverable = true
is_non_recoverable _ = false

unfoldable pub has_failed : AgentRun → Bool
has_failed run = run.status == RunStatus.failed

-- The runs that count against the retry limit.
unfoldable pub is_retryable : AgentRun → Bool
unfolding has_failed
is_retryable run =
    has_failed run || (is_terminal run && validation_outcome run == ValidationOutcome.gates_failed)

-- `latest.finished_at or latest.started_at`
unfoldable pub last_attempt : AgentRun → Option ℕ
last_attempt run = elim run.finished_at [ none ↦ run.started_at | some t ↦ some t ]

unfoldable pub too_early : ℕ → ℕ → ℕ → Exec (Unit {0})
too_early now attempted delay =
    if ltb now (attempted + delay) then raise retry_not_allowed else pure tt

-- The backoff after a failed run that has a time.
unfoldable pub backoff : Ports → RecoveryPolicy → Option ℕ → ℕ → Exec (Unit {0})
backoff p policy none failures = pure tt
backoff p policy (some attempted) failures =
    if policy.base_backoff_seconds == 0 then pure tt else (do
      now ← ask p.now
      delay ← lift (delay_for policy failures)
      too_early now attempted delay)

unfoldable pub check_backoff : Ports → RecoveryPolicy → List AgentRun → Exec (Unit {0})
check_backoff p policy history = elim (last? history) [
  | none ↦ pure tt
  | some latest ↦
      if has_failed latest
      then backoff p policy (last_attempt latest) (count has_failed history)
      else pure tt
]

-- Whether a claim may be released: its newest run failed, or ended in a rework.
unfoldable pub releasable : Bool → Option AgentRun → Bool
releasable rework_claim none = false
releasable rework_claim (some latest) = has_failed latest || (rework_claim && is_terminal latest)

-- A claimed task passes through BLOCKED.
unfoldable pub release_claim : Ports → FactoryTask → Bool → Option AgentRun → Exec (Unit {0})
release_claim p task rework_claim latest =
    if not (task.status == TaskStatus.claimed)
    then pure tt
    else if not (releasable rework_claim latest)
    then raise retry_not_allowed
    else (do transition p task.task_id TaskStatus.blocked (some TaskStatus.claimed); pure tt)

unfoldable pub retry_target : FactoryTask → Option AgentRun → TaskStatus
retry_target task latest =
    if is_publication_retry task latest then TaskStatus.validating else TaskStatus.ready

-- The end of `retry`, once the attempts are counted.
unfoldable pub resume :
    Ports → RecoveryPolicy → FactoryTask → List AgentRun → Bool → Exec FactoryTask
resume p policy task history rework_claim = do
  check_backoff p policy history
  release_claim p task rework_claim (last? history)
  transition p task.task_id (retry_target task (last? history)) (some TaskStatus.blocked)

-- What `retry` does with a task of a retryable status that has no active run.
unfoldable pub retry_idle :
    Ports → RecoveryPolicy → FactoryTask → List AgentRun → Bool → Exec FactoryTask
retry_idle p policy task history rework_claim =
    if is_non_recoverable (classify_retry task (last? history) rework_claim)
    then raise retry_not_allowed
    else if leb policy.run_retry_limit (count is_retryable history)
    then raise retry_not_allowed
    else resume p policy task history rework_claim

unfoldable pub retry_task : Ports → RecoveryPolicy → FactoryTask → Exec FactoryTask
retry_task p policy task =
    if not (contains retryable_statuses task.status) then raise retry_not_allowed else (do
      active ← query (find_active_run task.task_id)
      if is_some active then raise retry_not_allowed else (do
        history ← query (list_runs task.task_id)
        feedback ← query (Tasks.latest_rework_feedback task.task_id)
        retry_idle p policy task history (is_some feedback)))

-- `RetryService.retry`
unfoldable pub retry : Ports → RecoveryPolicy → String → Exec FactoryTask
retry p policy task_id = do task ← require_task task_id; retry_task p policy task
