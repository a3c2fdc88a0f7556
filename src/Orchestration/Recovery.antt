-- ===== src/Orchestration/Recovery.antt =====
-- src/factory/orchestration/recovery.py: bounded decisions on failures. Delays are whole seconds.
pub mod Delays
use ai_factory_lab.Common.{
  ℕ, ◌-◌, ◌*◌, ◌^◌, min, String, Bool, true, false, not, ◌&&◌, ◌||◌, Option, none, some, List, [],
  ◌∷◌, ◌==◌, string_eq, option_eq, if◌then◌else◌, contains, ltb, join, is_blank, starts_with,
}
use ai_factory_lab.Domain.Enums.{
  TaskStatus, RunStatus, ValidationOutcome, task_status_eq, run_status_eq, validation_outcome_eq,
}
use ai_factory_lab.Domain.Models.{Workspace, FactoryTask, AgentRun, is_terminal, validation_outcome}
use ai_factory_lab.Domain.Errors.{Result, ok, err, value_error}
use ai_factory_lab.Store.{active_statuses}

pub data FailureClass : Type 0 where
  transient correctable non_recoverable : FailureClass

pub record RecoveryPolicy : Type 0 where
  pub correction_limit : ℕ
  pub run_retry_limit : ℕ
  pub base_backoff_seconds : ℕ
  pub max_backoff_seconds : ℕ

-- `__post_init__`, on numbers that are not negative
unfoldable pub new_policy : ℕ → ℕ → ℕ → ℕ → Result RecoveryPolicy
new_policy corrections retries base most =
    if ltb retries 1 || ltb most base
    then err value_error
    else ok (record {
      correction_limit = corrections;
      run_retry_limit = retries;
      base_backoff_seconds = base;
      max_backoff_seconds = most;
    })

-- `classify`
unfoldable pub classify : AgentRun → FailureClass
classify run =
    if validation_outcome run == ValidationOutcome.gates_failed
    then FailureClass.correctable
    else if contains active_statuses run.status
    then FailureClass.transient
    else FailureClass.non_recoverable

-- `f"publication failed: run {run_id}, workspace {workspace_id}"`
unfoldable pub publication_reason : String → String → String
publication_reason run_id workspace_id =
    join "publication failed: run " (join run_id (join ", workspace " workspace_id))

unfoldable pub has_revision : Option String → Bool
has_revision none = false
has_revision (some revision) = not (is_blank revision)

unfoldable pub publication_workspace : FactoryTask → AgentRun → Option Workspace → Bool
unfolding publication_reason
publication_workspace task latest none = false
publication_workspace task latest (some workspace) =
    workspace.repository_slug == task.target_repository
    && task.blocked_reason == some (publication_reason latest.run_id workspace.workspace_id)

-- `is_publication_retry`
unfoldable pub is_publication_retry : FactoryTask → Option AgentRun → Bool
unfolding has_revision publication_workspace
is_publication_retry task none = false
is_publication_retry task (some latest) =
    task.status == TaskStatus.blocked
    && latest.task_id == task.task_id
    && latest.status == RunStatus.succeeded
    && validation_outcome latest == ValidationOutcome.ready_for_next_phase
    && has_revision latest.validated_revision
    && latest.project_id == task.project_id
    && publication_workspace task latest latest.workspace

unfoldable pub blocked_on_context : Option String → Bool
blocked_on_context none = false
blocked_on_context (some reason) = starts_with "required context " reason

-- `classify_retry` of a task in one of the two statuses that may be retried
unfoldable pub classify_attempt : FactoryTask → Option AgentRun → Bool → FailureClass
unfolding blocked_on_context
classify_attempt task none rework_claim =
    if task.status == TaskStatus.blocked && blocked_on_context task.blocked_reason
    then FailureClass.correctable
    else FailureClass.transient
classify_attempt task (some latest) rework_claim =
    if latest.status == RunStatus.failed
    then FailureClass.correctable
    else if task.status == TaskStatus.blocked
        && is_terminal latest
        && validation_outcome latest == ValidationOutcome.gates_failed
    then FailureClass.correctable
    else if is_publication_retry task (some latest)
    then FailureClass.correctable
    else if task.status == TaskStatus.claimed && rework_claim && is_terminal latest
    then FailureClass.correctable
    else FailureClass.non_recoverable

abbrev pub retryable_statuses : List TaskStatus
retryable_statuses = TaskStatus.blocked ∷ TaskStatus.claimed ∷ []

-- `classify_retry`
unfoldable pub classify_retry : FactoryTask → Option AgentRun → Bool → FailureClass
classify_retry task latest rework_claim =
    if not (contains retryable_statuses task.status)
    then FailureClass.non_recoverable
    else classify_attempt task latest rework_claim

-- `delay_for`
unfoldable pub delay_for : RecoveryPolicy → ℕ → Result ℕ
delay_for policy correction_number =
    if ltb correction_number 1
    then err value_error
    else ok (
        min policy.max_backoff_seconds
          (policy.base_backoff_seconds * 2 ^ min (correction_number - 1) 30))
