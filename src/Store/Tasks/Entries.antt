-- ===== src/Store/Tasks/Entries.antt =====
-- Which statuses `_apply_transition` of src/factory/infrastructure/persistence/sqlite.py enters, and
-- from where.
use ai_factory_lab.Common.{
  ℕ, String, ◌≡◌, ap, Bool, true, ◌||◌, inl, inr, ◌⊎◌, [], ◌∷◌, contains, arith, Bool-cases,
}
use ai_factory_lab.Domain.Enums.{TaskStatus, task_status_eq}
use ai_factory_lab.Domain.Models.{FactoryTask}
use ai_factory_lab.Domain.Lifecycle.{can_persist_transition}
use ai_factory_lab.Domain.Lifecycle.Graph.{entered_from, persisted_entries}
use ai_factory_lab.Domain.Errors.{Result, ok}
use ai_factory_lab.Store.{Db}
use ai_factory_lab.Store.Tasks.{apply, terminal_resolution}
use ai_factory_lab.Store.Tasks.Writes.{apply-atomic}

allowed_entries :
    (allow : Bool) (from target : TaskStatus)
    → (terminal_resolution allow from target || can_persist_transition from target) ≡ true
    → (contains (entered_from target) from ≡ true)
      ⊎ ((allow ≡ true)
          × (contains (TaskStatus.failed ∷ TaskStatus.cancelled ∷ []) from ≡ true)
          × (target ≡ TaskStatus.done))
unfolding terminal_resolution
allowed_entries allow from target edge = elim (Bool-cases (can_persist_transition from target)) [
  | inl persisted ↦ inl (persisted_entries from target persisted)
  | inr other ↦ inr (
    ground (arith, edge, other),
    ground (arith, edge, other),
    (task_status_eq.beq_iff target TaskStatus.done).0 (ground (arith, edge, other)),
  )
]

-- A transition that is applied enters CLAIMED only from READY, RUNNING only from CLAIMED, PR_OPEN only
-- from VALIDATING, CHANGES_REQUESTED only from WAITING_HUMAN, DONE only from VALIDATING or
-- WAITING_HUMAN, VALIDATING only from RUNNING or BLOCKED, WAITING_HUMAN only from PR_OPEN, READY or
-- RUNNING, and DISCOVERED never, and leaves neither DONE nor CANCELLED; the one exception is a
-- terminal resolution, which enters DONE from FAILED or CANCELLED.
pub apply-entered :
    (max_claims : ℕ) (allow : Bool) (task_id : String) (from target : TaskStatus) (now : ℕ)
    (uid : String) (db : Db) {task : FactoryTask}
    → (apply max_claims allow task_id from target now uid db).0 ≡ ok task
    → (contains (entered_from target) from ≡ true)
      ⊎ ((allow ≡ true)
          × (contains (TaskStatus.failed ∷ TaskStatus.cancelled ∷ []) from ≡ true)
          × (target ≡ TaskStatus.done))
apply-entered max_claims allow task_id from target now uid db returned =
    elim (apply-atomic max_claims allow task_id from target now uid db) [
      | inl (e, raised) ↦ cc (returned, ap (λ (r : Result FactoryTask × Db). r.0) raised)
      | inr (before, applied) ↦ allowed_entries allow from target applied.edge
    ]
