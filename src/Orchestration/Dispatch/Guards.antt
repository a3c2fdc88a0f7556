-- ===== src/Orchestration/Dispatch/Guards.antt =====
-- What `dispatch` of src/factory/orchestration/dispatch.py refuses, and the run that it returns.
use ai_factory_lab.Common.{
  ℕ, String, ◌≡◌, refl, ◌∙◌, Bool, false, not, Option, none, some, ◌==◌, string_eq, if◌then◌else◌,
  inl, inr, Bool-cases, Option-cases, ◌&&◌, is_none, arith, subst,
}
use ai_factory_lab.Domain.Enums.{TaskStatus, task_status_eq}
use ai_factory_lab.Domain.Models.{Workspace, FactoryTask, AgentRun, ContextPack}
use ai_factory_lab.Domain.Errors.{
  Error, ok, err, or_raise, task_not_ready, dispatch_conflict, duplicate_run, task_state_changed,
  invalid_transition, Result-cases,
}
use ai_factory_lab.Store.{Db, find_task}
use ai_factory_lab.Store.Runs.{find_active_run, save_run, save_checked, insert_run}
use ai_factory_lab.Exec.{Ports, World, pure, raise, transact, ask, ◌>>=◌}
use ai_factory_lab.Exec.Ensures.{
  Ensures, Ensures-pure, Ensures-raise, Ensures-then, Ensures-bind, Ensures-attempt, Ensures-if,
  Ensures_result,
}
use ai_factory_lab.Orchestration.Transitions.{require_task, transition}
use ai_factory_lab.Orchestration.Transitions.Arrived.{
  Arrived, transition-Arrived, require_task-named,
}
use ai_factory_lab.Orchestration.Dispatch.{
  DispatchService, dispatch, dispatch_claimed, no_active_run, build_context, claim, claim_failed,
  prepare_workspace, start_run, adapter_replied, started_run, record_failure, persist_run,
  persist_failed,
}

-- Whether `dispatch` may go on with a task.
abbrev pub is_dispatchable : FactoryTask → Db → Bool
is_dispatchable task db =
    task.status == TaskStatus.ready && is_none (find_active_run task.task_id db)

-- The refusal of a task that may not be dispatched.
abbrev pub refusal : String → FactoryTask → Error
refusal task_id task =
    if task.status == TaskStatus.ready
    then dispatch_conflict task.task_id
    else task_not_ready task_id task.status

-- A task that is not READY, or that has an active run, is refused before anything is written, asked
-- of a port or started.
pub dispatch-refused :
    (p : Ports) (s : DispatchService) (task_id : String) (w : World) {task : FactoryTask}
    → find_task task_id w.db ≡ some task
    → is_dispatchable task w.db ≡ false
    → dispatch p s task_id w ≡ (err (refusal task_id task), w)
unfolding dispatch require_task no_active_run raise ◌>>=◌
dispatch-refused p s task_id w {task} found refused =
    elim (Bool-cases (task.status == TaskStatus.ready)) [
      | inr unready ↦ rw (found, or_raise, unready)
      | inl ready ↦ elim (Option-cases (find_active_run task.task_id w.db)) [
        | inr (run, busy) ↦ rw (found, or_raise, ready, busy)
        | inl idle ↦ cc (rw (ready, idle) at refused)
      ]
    ]

-- A run of the named task and of the dispatcher's own worker session, under its adapter's kind.
pub record IsOwned (p : Ports) (s : DispatchService) (task_id : String) (run : AgentRun)
    : Type 0 where
  pub task : run.task_id ≡ task_id
  pub adapter : run.adapter ≡ p.adapter_kind
  pub worker : run.worker_id ≡ s.worker_id
  pub session : run.session_id ≡ s.session_id
  pub workspace : Workspace
  pub attached : run.workspace ≡ some workspace
  pub pack : ContextPack
  pub packed : run.context_pack ≡ some pack

-- A run that is saved is the run that was given.
save_run-same :
    (run : AgentRun) (now : ℕ) (db : Db) {saved : AgentRun}
    → (save_run run now db).0 ≡ ok saved
    → run ≡ saved
unfolding save_run save_checked insert_run
save_run-same run now db h = ground arith

module _ (p : Ports) (s : DispatchService) (task_id : String) where
  persist_failed-raises :
      {Q : AgentRun → Type 0} (run : AgentRun) (e : Error) → Ensures Q (persist_failed p run e)
  unfolding persist_failed
  persist_failed-raises run (duplicate_run id) = Ensures-raise (dispatch_conflict run.task_id)
  persist_failed-raises run e = Ensures-raise e

  saved-Holds :
      {Q : AgentRun → Type 0} (run : AgentRun)
      → Q run
      → (now : ℕ) → Ensures Q (transact (save_run run now))
  unfolding transact
  saved-Holds {Q} run h now = record {
    at = λ w. elim (Result-cases (save_run run now w.db).0) [
      | inl (e, failed) ↦ rw failed tt
      | inr (saved, stored) ↦ rw stored (subst Q (save_run-same run now w.db stored) h)
    ];
  }

  persist_run-Ensures :
      {Q : AgentRun → Type 0} (run : AgentRun) → Q run → Ensures Q (persist_run p run)
  unfolding persist_run
  persist_run-Ensures {Q} run h = Ensures-then (ask p.now) _ (λ now.
      Ensures-attempt (transact (save_run run now)) pure (persist_failed p run)
        (saved-Holds {Q = Q} run h now) (λ saved k. Ensures-pure saved k)
        (persist_failed-raises {Q = Q} run))

  replied-IsOwned :
      (task : FactoryTask) (workspace : Workspace) (pack : ContextPack)
      → task.task_id ≡ task_id
      → (started_at : ℕ) (reply : Option AgentRun)
      → Ensures (IsOwned p s task_id) (adapter_replied p s task workspace pack started_at reply)
  unfolding adapter_replied started_run
  replied-IsOwned task workspace pack named started_at none =
      Ensures-then (record_failure p task workspace pack started_at) _
        (λ failed. Ensures-then _ _ (λ _. Ensures-raise _))
  replied-IsOwned task workspace pack named started_at (some produced) =
      persist_run-Ensures _ (record {
        task = named;
        adapter = refl;
        worker = refl;
        session = refl;
        workspace = workspace;
        attached = refl;
        pack = pack;
        packed = refl;
      })

  start_run-IsOwned :
      (task : FactoryTask) (workspace : Workspace) (pack : ContextPack)
      → task.task_id ≡ task_id
      → Ensures (IsOwned p s task_id) (start_run p s task workspace pack)
  unfolding start_run
  start_run-IsOwned task workspace pack named = Ensures-then (ask p.now) _ (λ started_at.
      Ensures-then _ _ (λ _.
        Ensures-then _ _ (λ reply. replied-IsOwned task workspace pack named started_at reply)))

  dispatch_claimed-IsOwned :
      (pack : ContextPack) (task : FactoryTask)
      → task.task_id ≡ task_id
      → Ensures (IsOwned p s task_id) (dispatch_claimed p s pack task)
  unfolding dispatch_claimed
  dispatch_claimed-IsOwned pack task named =
      Ensures-then (prepare_workspace p s task) _ (λ workspace.
        Ensures-bind (start_run p s task workspace pack) _
          (start_run-IsOwned task workspace pack named)
          (λ run owned.
            Ensures-then (transition p task.task_id TaskStatus.running none) _
              (λ _. Ensures-pure run owned)))

  claim_failed-raises :
      {Q : FactoryTask → Type 0} (task : FactoryTask) (e : Error)
      → Ensures Q (claim_failed p task e)
  unfolding claim_failed
  claim_failed-raises task (task_state_changed id from actual) =
      Ensures-raise (dispatch_conflict task.task_id)
  claim_failed-raises task (invalid_transition from target) =
      Ensures-raise (dispatch_conflict task.task_id)
  claim_failed-raises task e = Ensures-raise e

  claim-Arrived :
      (task : FactoryTask) → Ensures (Arrived task.task_id TaskStatus.claimed) (claim p task)
  unfolding claim
  claim-Arrived task =
      Ensures-attempt (transition p task.task_id TaskStatus.claimed none) pure (claim_failed p task)
        (transition-Arrived p task.task_id TaskStatus.claimed none)
        (λ claimed k. Ensures-pure claimed k) (claim_failed-raises task)

  ready-IsOwned :
      (task : FactoryTask)
      → task.task_id ≡ task_id
      → Ensures (IsOwned p s task_id) (
          no_active_run p task >>= λ _.
          build_context p task none none >>= λ pack. claim p task >>= dispatch_claimed p s pack)
  ready-IsOwned task named = Ensures-then (no_active_run p task) _ (λ _.
      Ensures-then (build_context p task none none) _ (λ pack.
        Ensures-bind (claim p task) _ (claim-Arrived task)
          (λ claimed arrived. dispatch_claimed-IsOwned pack claimed (arrived.named ∙ named))))

  dispatch-Ensures : Ensures (IsOwned p s task_id) (dispatch p s task_id)
  unfolding dispatch
  dispatch-Ensures =
      Ensures-bind (require_task task_id) _ (require_task-named p task_id TaskStatus.running)
        (λ task named.
          Ensures-if (not (task.status == TaskStatus.ready))
            (raise (task_not_ready task_id task.status)) _
            (λ _. Ensures-raise (task_not_ready task_id task.status))
            (λ _. ready-IsOwned task named))

-- A run that `dispatch` returns belongs to the requested task, with a workspace and a context pack,
-- under the adapter's kind and the dispatcher's own worker and session, whatever the adapter answered.
pub dispatch-IsOwned :
    (p : Ports) (s : DispatchService) (task_id : String) (w : World) {run : AgentRun}
    → (dispatch p s task_id w).0 ≡ ok run
    → IsOwned p s task_id run
dispatch-IsOwned p s task_id w returned =
    Ensures_result (dispatch p s task_id) (dispatch-Ensures p s task_id) w returned
