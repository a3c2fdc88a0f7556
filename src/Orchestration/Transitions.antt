-- ===== src/Orchestration/Transitions.antt =====
-- src/factory/orchestration/machine.py and src/factory/orchestration/transitions.py.
pub mod Branches
pub mod Arrived
use ai_factory_lab.Common.{
  ℕ, String, Bool, true, false, not, ◌&&◌, ◌||◌, Option, none, some, List, [], ◌∷◌, ◌==◌, string_eq,
  contains, if◌then◌else◌,
}
use ai_factory_lab.Domain.Enums.{TaskStatus, task_status_eq}
use ai_factory_lab.Domain.Models.{FactoryTask, TaskTransition}
use ai_factory_lab.Domain.Lifecycle.{can_transition}
use ai_factory_lab.Domain.Errors.{
  Error, Result, ok, err, or_raise, key_error, value_error, task_state_changed, invalid_transition,
}
use ai_factory_lab.Store.{Db, find_task}
use ai_factory_lab.Store.Tasks
use ai_factory_lab.Exec.{Ports, World, Exec, pure, raise, lift, query, ask, transact, ◌>>=◌, ◌>>◌}

-- `TaskStateMachine.can_apply`
unfoldable pub can_apply : FactoryTask → TaskStatus → Bool
can_apply task target = can_transition task.status target

-- `TaskStateMachine.apply`
unfoldable pub machine_apply : FactoryTask → TaskStatus → ℕ → Result FactoryTask
unfolding can_apply
machine_apply task target now =
    if not (can_apply task target)
    then err (invalid_transition task.status target)
    else ok (record task { status = target; updated_at = now })

-- The repository's compare-and-swap, with the clock and a fresh identifier.
unfoldable pub apply_transition : Ports → String → TaskStatus → TaskStatus → Exec FactoryTask
apply_transition p task_id from target = do
  now ← ask p.now
  uid ← ask p.uuid
  transact (Tasks.apply_transition p.max_active_claims task_id from target now uid)

-- What `transition` does with the row that it read.
unfoldable pub transition_task :
    Ports → String → TaskStatus → Option TaskStatus → FactoryTask → Exec FactoryTask
unfolding can_apply
transition_task p task_id target expected_from task = elim expected_from [
  | some e ↦
      if not (task.status == e)
      then raise (task_state_changed task_id e task.status)
      else if not (can_apply task target)
      then raise (invalid_transition task.status target)
      else apply_transition p task_id task.status target
  | none ↦
      if task.status == target
      then pure task
      else if not (can_apply task target)
      then raise (invalid_transition task.status target)
      else apply_transition p task_id task.status target
]

unfoldable pub require_task : String → Exec FactoryTask
require_task task_id = do
  found ← query (find_task task_id)
  lift (or_raise (key_error task_id) found)

-- `TaskLifecycleService.transition`
unfoldable pub transition : Ports → String → TaskStatus → Option TaskStatus → Exec FactoryTask
unfolding require_task
transition p task_id target expected_from = do
  task ← require_task task_id
  transition_task p task_id target expected_from task

-- `TaskLifecycleService.reconcile_terminal_resolution`, over the SQLite repository, which has
-- `apply_terminal_resolution`
unfoldable pub reconcile_terminal_resolution : Ports → String → TaskStatus → Exec FactoryTask
reconcile_terminal_resolution p task_id expected_from =
    if contains (TaskStatus.failed ∷ TaskStatus.cancelled ∷ []) expected_from
    then (do
      now ← ask p.now
      uid ← ask p.uuid
      transact (Tasks.apply_terminal_resolution p.max_active_claims task_id expected_from now uid))
    else raise value_error
