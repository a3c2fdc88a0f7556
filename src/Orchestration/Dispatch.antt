-- ===== src/Orchestration/Dispatch.antt =====
-- src/factory/orchestration/dispatch.py: a READY task becomes a durable workspace and agent run.
pub mod Claim
pub mod Guards
use Prim.Native.Char.{code}
use ai_factory_lab.Common.{
  ℕ, String, Bool, true, false, not, ◌&&◌, ◌||◌, Option, none, some, List, [], ◌∷◌, ◌==◌, string_eq,
  if◌then◌else◌, last?, contains, nat_beq, join, strip_right, starts_with,
}
use ai_factory_lab.Domain.Enums.{
  TaskStatus, RunStatus, TaskKind, task_status_eq, run_status_eq, task_kind_eq,
}
use ai_factory_lab.Domain.Models.{Workspace, FactoryTask, AgentRun, ContextPack, is_terminal}
use ai_factory_lab.Domain.Errors.{
  Error, Result, ok, err, task_state_changed, invalid_transition, task_not_ready, dispatch_conflict,
  duplicate_run, workspace_provisioning, agent_dispatch, context_build, is_value_error,
}
use ai_factory_lab.Store.{active_statuses}
use ai_factory_lab.Store.Tasks
use ai_factory_lab.Store.Runs.{save_run, find_active_run, list_runs}
use ai_factory_lab.Exec.{
  Ports, Exec, prepared, started, pure, raise, lift, query, ask, transact, emit, ◌>>=◌, ◌>>◌,
  attempt,
}
use ai_factory_lab.Orchestration.Transitions.{require_task, transition}

-- The service's configuration; `set_worker_owner` writes the last two fields.
pub record DispatchService : Type 0 where
  pub workspace_root : String
  pub worker_id : Option String
  pub session_id : Option String

-- `workspace_root.rstrip("/")`
root_of : String → String
root_of = strip_right (λ c. nat_beq (code c) b'/')

-- `new_workspace` and `new_operational_workspace` of src/factory/domain/models.py
unfoldable pub new_workspace : FactoryTask → String → String → ℕ → Workspace
unfolding root_of
new_workspace task root id now = record {
  workspace_id = id;
  repository_slug = task.target_repository;
  branch = join "factory/" (join task.task_id (join "/" id));
  path = join (root_of root) (join "/" id);
  kind = TaskKind.code;
  created_at = now;
}

unfoldable pub new_operational_workspace : FactoryTask → String → String → ℕ → Workspace
unfolding root_of
new_operational_workspace task root id now = record {
  workspace_id = id;
  repository_slug = task.target_repository;
  branch = "";
  path = join (root_of root) (join "/" id);
  kind = TaskKind.operational;
  created_at = now;
}

abbrev pub context_reason : String
context_reason = "required context unavailable, invalid or over budget"

module _ (p : Ports) where
  -- The handler of `_build_context`: a `ValueError` blocks the task.
  unfoldable pub context_failed : FactoryTask → Error → Exec ContextPack
  context_failed task e =
      if is_value_error e
      then (do
        blocked ← transition p task.task_id TaskStatus.blocked (some TaskStatus.ready)
        transact (Tasks.update (record blocked { blocked_reason = some context_reason }))
        raise context_build)
      else raise e

  unfoldable pub context_built : FactoryTask → Result ContextPack → Exec ContextPack
  context_built task (ok pack) = pure pack
  context_built task (err e) = context_failed task e

  unfoldable pub build_context : FactoryTask → Option String → Option ContextPack → Exec ContextPack
  build_context task feedback previous =
      if task.kind == TaskKind.operational
      then (do reply ← ask (λ n. p.build_context n task none none); lift reply)
      else (do
        reply ← ask (λ n. p.build_context n task feedback previous)
        context_built task reply)

  -- Both lost races are reported as the same conflict.
  unfoldable pub claim_failed : FactoryTask → Error → Exec FactoryTask
  claim_failed task (task_state_changed id from actual) = raise (dispatch_conflict task.task_id)
  claim_failed task (invalid_transition from target) = raise (dispatch_conflict task.task_id)
  claim_failed task e = raise e

  unfoldable pub claim : FactoryTask → Exec FactoryTask
  claim task = attempt (transition p task.task_id TaskStatus.claimed none) pure (claim_failed task)

  -- A provisioner's own error passes; any other is replaced.
  unfoldable pub provisioned : Workspace → Result Workspace → Exec Workspace
  provisioned workspace (ok w) = pure w
  provisioned workspace (err (workspace_provisioning id)) = raise (workspace_provisioning id)
  provisioned workspace (err e) = raise (workspace_provisioning workspace.workspace_id)

  unfoldable pub prepare_workspace : DispatchService → FactoryTask → Exec Workspace
  prepare_workspace s task = do
    id ← ask p.uuid
    now ← ask p.now
    let workspace =
        if task.kind == TaskKind.operational
        then new_operational_workspace task s.workspace_root id now
        else new_workspace task s.workspace_root id now
    emit (prepared task.task_id workspace.workspace_id)
    reply ← ask (λ n. p.prepare n task workspace)
    provisioned workspace reply

  unfoldable pub persist_failed : AgentRun → Error → Exec AgentRun
  persist_failed run (duplicate_run id) = raise (dispatch_conflict run.task_id)
  persist_failed run e = raise e

  unfoldable pub persist_run : AgentRun → Exec AgentRun
  persist_run run = do
    now ← ask p.now
    attempt (transact (save_run run now)) pure (persist_failed run)

  unfoldable pub failed_run : FactoryTask → Workspace → ContextPack → ℕ → String → ℕ → AgentRun
  failed_run task workspace pack started_at id finished = record {
    task_id = task.task_id;
    adapter = p.adapter_kind;
    run_id = id;
    status = RunStatus.failed;
    workspace = some workspace;
    summary = none;
    started_at = some started_at;
    last_heartbeat = none;
    agent_heartbeat = none;
    finished_at = some finished;
    gates = [];
    validated_revision = none;
    context_pack = some pack;
    project_id = task.project_id;
    worker_id = none;
    session_id = none;
  }

  unfoldable pub record_failure : FactoryTask → Workspace → ContextPack → ℕ → Exec AgentRun
  record_failure task workspace pack started_at = do
    id ← ask p.uuid
    finished ← ask p.now
    persist_run (failed_run task workspace pack started_at id finished)

  unfoldable pub started_run :
      DispatchService → FactoryTask → Workspace → ContextPack → ℕ → AgentRun → AgentRun
  started_run s task workspace pack started_at produced = record {
    task_id = task.task_id;
    adapter = p.adapter_kind;
    run_id = produced.run_id;
    status = produced.status;
    workspace = some workspace;
    summary = produced.summary;
    started_at = elim produced.started_at [ none ↦ some started_at | some t ↦ some t ];
    last_heartbeat = if contains active_statuses produced.status then some started_at else none;
    agent_heartbeat = none;
    finished_at = produced.finished_at;
    gates = produced.gates;
    validated_revision = none;
    context_pack = some pack;
    project_id = task.project_id;
    worker_id = s.worker_id;
    session_id = s.session_id;
  }

  unfoldable pub adapter_replied :
      DispatchService → FactoryTask → Workspace → ContextPack → ℕ → Option AgentRun → Exec AgentRun
  adapter_replied s task workspace pack started_at none = do
    failed ← record_failure task workspace pack started_at
    transition p task.task_id TaskStatus.blocked (some TaskStatus.claimed)
    raise (agent_dispatch task.task_id failed.run_id)
  adapter_replied s task workspace pack started_at (some produced) =
      persist_run (started_run s task workspace pack started_at produced)

  unfoldable pub start_run : DispatchService → FactoryTask → Workspace → ContextPack → Exec AgentRun
  start_run s task workspace pack = do
    started_at ← ask p.now
    emit (started task.task_id workspace.workspace_id)
    produced ← ask (λ n. p.start n task workspace pack)
    adapter_replied s task workspace pack started_at produced

  -- What `dispatch` does once `_claim` has returned.
  unfoldable pub dispatch_claimed : DispatchService → ContextPack → FactoryTask → Exec AgentRun
  dispatch_claimed s pack claimed = do
    workspace ← prepare_workspace s claimed
    run ← start_run s claimed workspace pack
    transition p claimed.task_id TaskStatus.running none
    pure run

  unfoldable pub no_active_run : FactoryTask → Exec (Unit {0})
  no_active_run task = do
    active ← query (find_active_run task.task_id)
    elim active [ none ↦ pure tt | some run ↦ raise (dispatch_conflict task.task_id) ]

  unfoldable pub dispatch : DispatchService → String → Exec AgentRun
  dispatch s task_id = do
    task ← require_task task_id
    if not (task.status == TaskStatus.ready)
        then raise (task_not_ready task_id task.status)
        else (do
          no_active_run task
          pack ← build_context task none none
          claimed ← claim task
          dispatch_claimed s pack claimed)

  unfoldable pub repair_workspace : FactoryTask → Workspace → Exec Workspace
  repair_workspace task workspace = elim p.repair [
    | none ↦ raise (workspace_provisioning task.task_id)
    | some repair ↦ do reply ← ask (λ n. repair n task workspace); lift reply
  ]

  abbrev recovery_prefix : String
  recovery_prefix = "Operator-authorized timeout recovery:"

  -- The pack that a rework run is built on.
  unfoldable pub historical_pack : FactoryTask → AgentRun → String → Exec (Option ContextPack)
  historical_pack task previous feedback = elim previous.context_pack [
    | some pack ↦ pure (some pack)
    | none ↦
        if starts_with recovery_prefix feedback
        then (do pack ← build_context task none none; pure (some pack))
        else pure none
  ]

  unfoldable pub rework_from :
      DispatchService → FactoryTask → String → AgentRun → Workspace → Exec AgentRun
  rework_from s task feedback previous workspace = do
    historical ← historical_pack task previous feedback
    pack ← build_context task (some feedback) historical
    claimed ← claim task
    repaired ← repair_workspace claimed workspace
    run ← start_run s claimed repaired pack
    transition p claimed.task_id TaskStatus.running none
    pure run

  unfoldable pub rework_after :
      DispatchService → FactoryTask → String → Option AgentRun → Exec AgentRun
  rework_after s task feedback none = raise (workspace_provisioning task.task_id)
  rework_after s task feedback (some previous) = elim previous.workspace [
    | none ↦ raise (workspace_provisioning task.task_id)
    | some workspace ↦
        if not (is_terminal previous)
        then raise (workspace_provisioning task.task_id)
        else rework_from s task feedback previous workspace
  ]

  unfoldable pub dispatch_rework : DispatchService → String → String → Exec AgentRun
  dispatch_rework s task_id feedback = do
    task ← require_task task_id
    if not (task.status == TaskStatus.ready) || not (task.kind == TaskKind.code)
        then raise (task_not_ready task_id task.status)
        else (do
          no_active_run task
          history ← query (list_runs task.task_id)
          rework_after s task feedback (last? history))
