-- ===== src/Tests/Services.antt =====
-- The services at work on the sample.
use ai_factory_lab.Common.{
  ℕ, suc, ◌+◌, ◌≤◌, String, ◌≡◌, ◌≢◌, refl, ◌⊎◌, inl, inr, Bool, true, false, Option, none, some,
  List, [], ◌∷◌, arith, map, length, is_some, last?,
}
use ai_factory_lab.Domain.Enums.{TaskStatus, RunStatus}
use ai_factory_lab.Domain.Errors.{Error, Result, ok, err, agent_collect, dispatch_conflict}
use ai_factory_lab.Store.{Db, is_task, find_task}
use ai_factory_lab.Store.Tasks.{history, list_all}
use ai_factory_lab.Store.Runs.{list_runs}
use ai_factory_lab.Exec.{Ports, World, ◌>>=◌}
use ai_factory_lab.Orchestration.Transitions.{transition}
use ai_factory_lab.Orchestration.Transitions.Branches.{Ends, transition-outcome}
use ai_factory_lab.Orchestration.Dispatch.{dispatch, dispatch_claimed, claim}
use ai_factory_lab.Orchestration.Dispatch.Claim.{claim-already_claimed}
use ai_factory_lab.Orchestration.Dispatch.Guards.{
  refusal, dispatch-refused, IsOwned, dispatch-IsOwned,
}
use ai_factory_lab.Tests.Sample.{task, run, workspace, pack, world, ports, dispatcher}

transition-outcome_example :
    let w = world TaskStatus.ready [] in
    Ends ports "t1" TaskStatus.claimed w
      (task "t1" TaskStatus.ready)
      (transition ports "t1" TaskStatus.claimed none w)
unfolding find_task
transition-outcome_example =
    transition-outcome ports "t1" TaskStatus.claimed (world TaskStatus.ready []) refl

claim-already_claimed_example :
    let w = world TaskStatus.claimed [] in
    (claim ports (task "t1" TaskStatus.ready) w ≡ (ok (task "t1" TaskStatus.claimed), w))
    × ((claim ports (task "t1" TaskStatus.ready) >>= dispatch_claimed ports dispatcher pack) w
        ≡ dispatch_claimed ports dispatcher pack (task "t1" TaskStatus.claimed) w)
unfolding find_task
claim-already_claimed_example =
    claim-already_claimed ports dispatcher (task "t1" TaskStatus.ready) pack
      (world TaskStatus.claimed []) refl refl

dispatch-refused_example :
    let w = world TaskStatus.blocked [] in
    dispatch ports dispatcher "t1" w ≡ (err (refusal "t1" (task "t1" TaskStatus.blocked)), w)
unfolding find_task
dispatch-refused_example =
    dispatch-refused ports dispatcher "t1" (world TaskStatus.blocked []) refl refl

dispatch-IsOwned_example : IsOwned ports dispatcher "t1" (record (run RunStatus.running) {
  workspace = some (record workspace {
    workspace_id = "fresh";
    branch = "factory/t1/fresh";
    path = "/work/fresh";
    created_at = 107;
  });
  last_heartbeat = some 109;
  worker_id = some "worker-1";
  session_id = some "session-1";
})
unfolding dispatch ◌>>=◌ ai_factory_lab.Orchestration.Transitions.require_task find_task
    ai_factory_lab.Orchestration.Dispatch.no_active_run ai_factory_lab.Store.Runs.find_active_run
    ai_factory_lab.Store.Runs.order_runs ai_factory_lab.Store.Order.order_by
    ai_factory_lab.Orchestration.Dispatch.build_context
    ai_factory_lab.Orchestration.Dispatch.context_built claim ai_factory_lab.Exec.attempt transition
    ai_factory_lab.Orchestration.Transitions.transition_task
    ai_factory_lab.Domain.Lifecycle.can_transition
    ai_factory_lab.Orchestration.Transitions.apply_transition
    ai_factory_lab.Store.Tasks.apply_transition ai_factory_lab.Common.Text.join
    ai_factory_lab.Common.Text.strip_right ai_factory_lab.Domain.Errors.is_value_error
    ai_factory_lab.Domain.Lifecycle.can_persist_transition
    ai_factory_lab.Domain.Lifecycle.next_states ai_factory_lab.Domain.Lifecycle.persistence_only
    ai_factory_lab.Exec.ask ai_factory_lab.Exec.emit ai_factory_lab.Exec.lift
    ai_factory_lab.Exec.pure ai_factory_lab.Exec.query ai_factory_lab.Exec.raise
    ai_factory_lab.Exec.transact ai_factory_lab.Orchestration.Dispatch.adapter_replied
    ai_factory_lab.Orchestration.Dispatch.claim_failed
    ai_factory_lab.Orchestration.Dispatch.context_failed dispatch_claimed
    ai_factory_lab.Orchestration.Dispatch.failed_run
    ai_factory_lab.Orchestration.Dispatch.new_operational_workspace
    ai_factory_lab.Orchestration.Dispatch.new_workspace
    ai_factory_lab.Orchestration.Dispatch.persist_failed
    ai_factory_lab.Orchestration.Dispatch.persist_run
    ai_factory_lab.Orchestration.Dispatch.prepare_workspace
    ai_factory_lab.Orchestration.Dispatch.provisioned
    ai_factory_lab.Orchestration.Dispatch.record_failure
    ai_factory_lab.Orchestration.Dispatch.start_run
    ai_factory_lab.Orchestration.Dispatch.started_run
    ai_factory_lab.Orchestration.Transitions.can_apply ai_factory_lab.Store.Runs.breaks_unique
    ai_factory_lab.Store.Runs.ensure_workspace ai_factory_lab.Store.Runs.get_workspace
    ai_factory_lab.Store.Runs.insert_run ai_factory_lab.Store.Runs.owns_workspace
    ai_factory_lab.Store.Runs.read_run ai_factory_lab.Store.Runs.run_identity_ok
    ai_factory_lab.Store.Runs.save_checked ai_factory_lab.Store.Runs.save_run
    ai_factory_lab.Store.Runs.to_row ai_factory_lab.Store.Runs.workspace_id_of
    ai_factory_lab.Store.Tasks.apply ai_factory_lab.Store.Tasks.busy_ids
    ai_factory_lab.Store.Tasks.checked_transition ai_factory_lab.Store.Tasks.count_distinct
    ai_factory_lab.Store.Tasks.guarded_write ai_factory_lab.Store.Tasks.idle_guard
    ai_factory_lab.Store.Tasks.in_status ai_factory_lab.Store.Tasks.read_back
    ai_factory_lab.Store.Tasks.record_transition ai_factory_lab.Store.Tasks.same_identity
    ai_factory_lab.Store.Tasks.set_status ai_factory_lab.Store.Tasks.terminal_resolution
    ai_factory_lab.Store.Tasks.update ai_factory_lab.Store.Tasks.write_columns
    ai_factory_lab.Store.Tasks.write_transition ai_factory_lab.Store.is_active
    ai_factory_lab.Store.is_busy ai_factory_lab.Store.is_busy_status is_task
dispatch-IsOwned_example = dispatch-IsOwned ports dispatcher "t1" (world TaskStatus.ready []) refl
