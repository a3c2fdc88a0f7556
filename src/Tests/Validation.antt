-- ===== src/Tests/Validation.antt =====
-- Validation, refreshing and reconciliation at work on the sample.
use ai_factory_lab.Common.{
  ℕ, suc, ◌≤◌, String, ◌≡◌, ◌≢◌, refl, ◌⊎◌, inl, inr, Bool, true, false, Option, none, some, List,
  [], ◌∷◌, arith, map, is_some, last?, ◌==◌, string_eq, if◌then◌else◌,
}
use ai_factory_lab.Domain.Enums.{TaskStatus, RunStatus, QualityGateStatus}
use ai_factory_lab.Domain.Models.{FactoryTask, AgentRun, QualityGate, required_green}
use ai_factory_lab.Domain.Errors.{Error, Result, ok, err, agent_collect}
use ai_factory_lab.Store.{Db, is_task, find_task}
use ai_factory_lab.Store.Tasks.{history}
use ai_factory_lab.Store.Tasks.Audit.{IsAudited, replay}
use ai_factory_lab.Store.Runs.{list_runs}
use ai_factory_lab.Exec.{Ports, World}
use ai_factory_lab.Orchestration.Tracking.{Verdict, validate_revision, evaluate_specs}
use ai_factory_lab.Orchestration.Tracking.Revision.{
  validate_revision-bound_iff_green, Reported, validate_revision-Reported, evaluate_specs-of_spec,
  of_gate, of_spec,
}
use ai_factory_lab.Orchestration.Tracking.Refresh.{refresh}
use ai_factory_lab.Orchestration.Tracking.Refresh.Audited.{refresh-IsAudited}
use ai_factory_lab.Orchestration.Recovery.{RecoveryPolicy, new_policy, delay_for}
use ai_factory_lab.Orchestration.Recovery.Delays.{delay_for-bounded}
use ai_factory_lab.Orchestration.Retry.{retry, retry_target}
use ai_factory_lab.Orchestration.Retry.Publications.{IsBlockedPublication}
use ai_factory_lab.Orchestration.Retry.Targets.{IsGranted, retry-IsGranted}
use ai_factory_lab.Orchestration.Watch.{Watcher, run as watch}
use ai_factory_lab.Orchestration.Watch.Counters.{Ended, run_counters}
use ai_factory_lab.Orchestration.Reconciliation.{ReconciliationReport}
use ai_factory_lab.Tests.Sample.{task, run, row, spec, world, ports, tracking, policy}

abbrev green : QualityGate
green = record {
  name = "tests";
  status = QualityGateStatus.passed;
  detail = some "exit_code=0";
  required = true;
}

validate_revision-bound_iff_green_example :
    is_some {A = String} (some "c0ffee") ≡ required_green (green ∷ [])
unfolding validate_revision ai_factory_lab.Exec.◌>>=◌
    ai_factory_lab.Orchestration.Tracking.validate_by find_task
    ai_factory_lab.Orchestration.Tracking.repaired_revision
    ai_factory_lab.Orchestration.Tracking.workspace_eq
    ai_factory_lab.Orchestration.Tracking.fingerprint
    ai_factory_lab.Orchestration.Tracking.inspect_and_run
    ai_factory_lab.Orchestration.Tracking.evaluate_gates
    ai_factory_lab.Orchestration.Tracking.specs_for
    ai_factory_lab.Orchestration.Tracking.common_specs evaluate_specs
    ai_factory_lab.Orchestration.Tracking.run_gates ai_factory_lab.Orchestration.Tracking.gate_reply
    ai_factory_lab.Orchestration.Tracking.specs_of_task
    ai_factory_lab.Orchestration.Tracking.conclude required_green
    ai_factory_lab.Common.Text.starts_with ai_factory_lab.Domain.Errors.is_factory_error
    ai_factory_lab.Domain.Models.is_green ai_factory_lab.Domain.Projects.matches_repository
    ai_factory_lab.Domain.Projects.resolve ai_factory_lab.Exec.ask ai_factory_lab.Exec.lift
    ai_factory_lab.Exec.pure ai_factory_lab.Exec.query
    ai_factory_lab.Orchestration.Tracking.detail_allowed
    ai_factory_lab.Orchestration.Tracking.evaluate_by
    ai_factory_lab.Orchestration.Tracking.failed_gate
    ai_factory_lab.Orchestration.Tracking.fingerprint_by
    ai_factory_lab.Orchestration.Tracking.gate_result
    ai_factory_lab.Orchestration.Tracking.integrity_failure
    ai_factory_lab.Orchestration.Tracking.no_workspace_gate
    ai_factory_lab.Orchestration.Tracking.repair_unavailable is_task
validate_revision-bound_iff_green_example =
    validate_revision-bound_iff_green ports tracking (run RunStatus.succeeded)
      (world TaskStatus.running []) {verdict = (green ∷ [], some "c0ffee")} refl

validate_revision-Reported_example : Reported ports (run RunStatus.succeeded) "c0ffee"
unfolding validate_revision ai_factory_lab.Exec.◌>>=◌
    ai_factory_lab.Orchestration.Tracking.validate_by find_task
    ai_factory_lab.Orchestration.Tracking.repaired_revision
    ai_factory_lab.Orchestration.Tracking.workspace_eq
    ai_factory_lab.Orchestration.Tracking.fingerprint
    ai_factory_lab.Orchestration.Tracking.inspect_and_run
    ai_factory_lab.Orchestration.Tracking.evaluate_gates
    ai_factory_lab.Orchestration.Tracking.specs_for
    ai_factory_lab.Orchestration.Tracking.common_specs evaluate_specs
    ai_factory_lab.Orchestration.Tracking.run_gates ai_factory_lab.Orchestration.Tracking.gate_reply
    ai_factory_lab.Orchestration.Tracking.specs_of_task
    ai_factory_lab.Orchestration.Tracking.conclude required_green
    ai_factory_lab.Common.Text.starts_with ai_factory_lab.Domain.Errors.is_factory_error
    ai_factory_lab.Domain.Models.is_green ai_factory_lab.Domain.Projects.matches_repository
    ai_factory_lab.Domain.Projects.resolve ai_factory_lab.Exec.ask ai_factory_lab.Exec.lift
    ai_factory_lab.Exec.pure ai_factory_lab.Exec.query
    ai_factory_lab.Orchestration.Tracking.detail_allowed
    ai_factory_lab.Orchestration.Tracking.evaluate_by
    ai_factory_lab.Orchestration.Tracking.failed_gate
    ai_factory_lab.Orchestration.Tracking.fingerprint_by
    ai_factory_lab.Orchestration.Tracking.gate_result
    ai_factory_lab.Orchestration.Tracking.integrity_failure
    ai_factory_lab.Orchestration.Tracking.no_workspace_gate
    ai_factory_lab.Orchestration.Tracking.repair_unavailable is_task
validate_revision-Reported_example =
    validate_revision-Reported ports tracking (run RunStatus.succeeded)
      (world TaskStatus.running []) {gates = green ∷ []} {revision = "c0ffee"} refl

evaluate_specs-of_spec_example : map of_gate (green ∷ []) ≡ map of_spec (spec ∷ [])
unfolding evaluate_specs ai_factory_lab.Orchestration.Tracking.run_gates ai_factory_lab.Exec.◌>>=◌
    ai_factory_lab.Orchestration.Tracking.gate_reply
    ai_factory_lab.Orchestration.Tracking.gate_result
    ai_factory_lab.Orchestration.Tracking.detail_allowed ai_factory_lab.Common.Text.starts_with
evaluate_specs-of_spec_example =
    evaluate_specs-of_spec ports (run RunStatus.succeeded) (spec ∷ []) (world TaskStatus.running [])
      {gates = green ∷ []} refl

-- A failed run of t1 and a newer one.
abbrev superseded : World
superseded = world TaskStatus.running (
    row RunStatus.failed
    ∷ record (row RunStatus.running) {
      run = record (run RunStatus.running) { run_id = "r2"; workspace = none };
      created_at = 5;
    }
    ∷ [])

abbrev running : World
running = world TaskStatus.running (row RunStatus.running ∷ [])

delay_for-bounded_example : (60 ≤ 60) × (60 ≤ 240) × (240 ≤ 300)
unfolding new_policy delay_for
delay_for-bounded_example =
    delay_for-bounded 2 3 60 300 {policy = policy} 1 3 refl (omega arith) refl refl

abbrev failed_once : World
failed_once = world TaskStatus.blocked (row RunStatus.failed ∷ [])

retry-IsGranted_example :
    let latest = last? (list_runs "t1" failed_once.db) in
    IsGranted policy (task "t1" TaskStatus.blocked) failed_once.db
    × (◌≡◌ {A = String} "t1" "t1")
    × ((IsBlockedPublication (task "t1" TaskStatus.blocked) latest
          × (TaskStatus.ready ≡ TaskStatus.validating))
        ⊎ ((¬ IsBlockedPublication (task "t1" TaskStatus.blocked) latest)
            × (TaskStatus.ready ≡ TaskStatus.ready)))
unfolding find_task retry ai_factory_lab.Exec.◌>>=◌
    ai_factory_lab.Orchestration.Transitions.require_task
    ai_factory_lab.Orchestration.Retry.retry_task ai_factory_lab.Store.Runs.find_active_run
    ai_factory_lab.Store.Runs.order_runs ai_factory_lab.Store.Order.order_by
    ai_factory_lab.Store.is_active ai_factory_lab.Orchestration.Retry.retry_idle
    ai_factory_lab.Orchestration.Recovery.classify_retry
    ai_factory_lab.Orchestration.Recovery.classify_attempt list_runs
    ai_factory_lab.Store.Runs.read_run ai_factory_lab.Orchestration.Retry.is_retryable
    ai_factory_lab.Orchestration.Retry.resume ai_factory_lab.Orchestration.Retry.check_backoff
    ai_factory_lab.Common.Text.is_blank ai_factory_lab.Common.Text.join
    ai_factory_lab.Common.Text.starts_with ai_factory_lab.Domain.Lifecycle.can_persist_transition
    ai_factory_lab.Domain.Lifecycle.can_transition ai_factory_lab.Domain.Lifecycle.next_states
    ai_factory_lab.Domain.Lifecycle.persistence_only ai_factory_lab.Domain.Models.is_green
    ai_factory_lab.Domain.Models.is_terminal ai_factory_lab.Domain.Models.required_gates_passed
    required_green ai_factory_lab.Domain.Models.validation_outcome ai_factory_lab.Exec.ask
    ai_factory_lab.Exec.lift ai_factory_lab.Exec.pure ai_factory_lab.Exec.query
    ai_factory_lab.Exec.raise ai_factory_lab.Exec.transact
    ai_factory_lab.Orchestration.Recovery.blocked_on_context delay_for
    ai_factory_lab.Orchestration.Recovery.has_revision
    ai_factory_lab.Orchestration.Recovery.is_publication_retry
    ai_factory_lab.Orchestration.Recovery.publication_reason
    ai_factory_lab.Orchestration.Recovery.publication_workspace
    ai_factory_lab.Orchestration.Retry.backoff ai_factory_lab.Orchestration.Retry.has_failed
    ai_factory_lab.Orchestration.Retry.last_attempt ai_factory_lab.Orchestration.Retry.releasable
    ai_factory_lab.Orchestration.Retry.release_claim retry_target
    ai_factory_lab.Orchestration.Retry.too_early
    ai_factory_lab.Orchestration.Transitions.apply_transition
    ai_factory_lab.Orchestration.Transitions.can_apply
    ai_factory_lab.Orchestration.Transitions.transition
    ai_factory_lab.Orchestration.Transitions.transition_task ai_factory_lab.Store.Runs.get_workspace
    ai_factory_lab.Store.Tasks.apply ai_factory_lab.Store.Tasks.apply_transition
    ai_factory_lab.Store.Tasks.busy_ids ai_factory_lab.Store.Tasks.checked_transition
    ai_factory_lab.Store.Tasks.count_distinct ai_factory_lab.Store.Tasks.guarded_write
    ai_factory_lab.Store.Tasks.idle_guard ai_factory_lab.Store.Tasks.in_status
    ai_factory_lab.Store.Tasks.latest_rework_feedback ai_factory_lab.Store.Tasks.read_back
    ai_factory_lab.Store.Tasks.record_transition ai_factory_lab.Store.Tasks.set_status
    ai_factory_lab.Store.Tasks.terminal_resolution ai_factory_lab.Store.Tasks.write_transition
    ai_factory_lab.Store.is_busy ai_factory_lab.Store.is_busy_status is_task
retry-IsGranted_example = retry-IsGranted ports policy "t1" failed_once refl refl

-- A factory that is always busy.
abbrev watcher : Watcher
watcher = record {
  should_stop = λ n. false;
  run_once = λ n. ok (record { outcome = "WIP_BUSY"; task_status = none });
}

run_counters_example : Ended watcher 3 (watch watcher 3)
run_counters_example = run_counters watcher 3

-- A run that was stored as failed before its task was moved.
abbrev crashed : World
crashed = world TaskStatus.running (row RunStatus.failed ∷ [])

abbrev repaired : ReconciliationReport
repaired = record { repaired = 1; missing_run = 0; active_mismatch = 0 }

-- The status that each task of `crashed` was created in.
abbrev origin : String → TaskStatus
origin id = if id == "t1" then TaskStatus.running else TaskStatus.ready

crashed-IsAudited : IsAudited origin crashed.db
unfolding replay history find_task is_task
crashed-IsAudited = record {
  accounted =
      λ id t stored. ground (arith, stored, string_eq.beq_iff id "t1", string_eq.beq_iff "t1" id);
}

refresh-IsAudited_example : IsAudited origin (refresh ports tracking "r1" crashed).1.db
refresh-IsAudited_example = refresh-IsAudited origin ports tracking "r1" crashed crashed-IsAudited
