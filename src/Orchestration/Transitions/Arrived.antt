-- ===== src/Orchestration/Transitions/Arrived.antt =====
-- What a successful call of `TaskLifecycleService.transition` returns.
use ai_factory_lab.Common.{
  ℕ, String, ◌≡◌, refl, not, Option, none, some, ◌==◌, string_eq, if◌then◌else◌, inl, inr,
  find_holds, Option-cases,
}
use ai_factory_lab.Domain.Enums.{TaskStatus, task_status_eq}
use ai_factory_lab.Domain.Models.{FactoryTask}
use ai_factory_lab.Domain.Errors.{or_raise, invalid_transition, task_state_changed}
use ai_factory_lab.Store.{Db, is_task, find_task}
use ai_factory_lab.Store.Tasks
use ai_factory_lab.Store.Tasks.{set_status}
use ai_factory_lab.Store.Tasks.Writes.{apply_transition-atomic}
use ai_factory_lab.Exec.{Ports, transact, raise, ◌>>=◌}
use ai_factory_lab.Exec.Ensures.{
  Ensures, Ensures-pure, Ensures-raise, Ensures-if, Ensures-bind, Ensures-then,
}
use ai_factory_lab.Orchestration.Transitions.{
  apply_transition, transition_task, require_task, transition, can_apply,
}

-- The named task in the target status.
pub record Arrived (task_id : String) (target : TaskStatus) (task : FactoryTask) : Type 0 where
  pub named : task.task_id ≡ task_id
  pub status : task.status ≡ target

pub find_task-named :
    (task_id : String) (db : Db) {task : FactoryTask}
    → find_task task_id db ≡ some task
    → task.task_id ≡ task_id
unfolding find_task is_task
find_task-named task_id db {task} found =
    (string_eq.beq_iff task.task_id task_id).0 (find_holds (is_task task_id) db.tasks found)

module _ (p : Ports) (task_id : String) (target : TaskStatus) where
  transact-Arrived :
      (from : TaskStatus) (now : ℕ) (uid : String)
      → Ensures
          (Arrived task_id target)
          (transact (Tasks.apply_transition p.max_active_claims task_id from target now uid))
  unfolding transact
  transact-Arrived from now uid = record {
    at = λ w. elim (apply_transition-atomic p.max_active_claims task_id from target now uid w.db) [
      | inl (e, raised) ↦ rw raised tt
      | inr (task, after, stored, here, edge, room, written, again, kept) ↦ rw written (
          unfold set_status in
          record { named = find_task-named task_id w.db stored; status = refl })
    ];
  }

  apply_transition-Arrived :
      (from : TaskStatus)
      → Ensures (Arrived task_id target) (apply_transition p task_id from target)
  unfolding apply_transition
  apply_transition-Arrived from =
      Ensures-then _ _ (λ now. Ensures-then _ _ (λ uid. transact-Arrived from now uid))

  checked-Arrived :
      (task : FactoryTask)
      → Ensures (Arrived task_id target) (
          if not (can_apply task target)
          then raise (invalid_transition task.status target)
          else apply_transition p task_id task.status target)
  checked-Arrived task =
      Ensures-if (not (can_apply task target)) (raise (invalid_transition task.status target))
        (apply_transition p task_id task.status target)
        (λ _. Ensures-raise (invalid_transition task.status target))
        (λ _. apply_transition-Arrived task.status)

  transition_task-Arrived :
      (expected : Option TaskStatus) (task : FactoryTask)
      → task.task_id ≡ task_id
      → Ensures (Arrived task_id target) (transition_task p task_id target expected task)
  unfolding transition_task
  transition_task-Arrived none task named =
      Ensures-if (task.status == target) _ _
        (λ same.
          Ensures-pure task
            (record { named = named; status = (task_status_eq.beq_iff task.status target).0 same }))
        (λ _. checked-Arrived task)
  transition_task-Arrived (some e) task named =
      Ensures-if (not (task.status == e)) (raise (task_state_changed task_id e task.status)) _
        (λ _. Ensures-raise (task_state_changed task_id e task.status)) (λ _. checked-Arrived task)

  pub require_task-named : Ensures (λ task. task.task_id ≡ task_id) (require_task task_id)
  unfolding require_task ◌>>=◌
  require_task-named = record {
    at = λ w. elim (Option-cases (find_task task_id w.db)) [
      | inl missing ↦ rw (missing, or_raise) tt
      | inr (task, stored) ↦ rw (stored, or_raise) (find_task-named task_id w.db stored)
    ];
  }

  pub transition-Arrived :
      (expected : Option TaskStatus)
      → Ensures (Arrived task_id target) (transition p task_id target expected)
  unfolding transition
  transition-Arrived expected =
      Ensures-bind (require_task task_id) _ require_task-named (transition_task-Arrived expected)
