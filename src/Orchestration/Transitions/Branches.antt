-- ===== src/Orchestration/Transitions/Branches.antt =====
-- What `TaskLifecycleService` of src/factory/orchestration/transitions.py guarantees.
use ai_factory_lab.Common.{
  suc, String, Bool, ◌≡◌, ◌≢◌, refl, true, false, not, ◌||◌, Option, none, some, ◌==◌, string_eq,
  ==_refl, ==_ne, ==_false, ◌∙◌, if◌then◌else◌, Bool-cases, inl, inr, arith,
}
use ai_factory_lab.Domain.Enums.{TaskStatus, task_status_eq}
use ai_factory_lab.Domain.Models.{FactoryTask}
use ai_factory_lab.Domain.Lifecycle.{can_transition, can_persist_transition}
use ai_factory_lab.Domain.Errors.{Result, ok, err, or_raise, invalid_transition, task_state_changed}
use ai_factory_lab.Store.{Db, find_task}
use ai_factory_lab.Store.Stable.{KeptByApply}
use ai_factory_lab.Store.Tasks
use ai_factory_lab.Store.Tasks.{idle_guard, terminal_resolution, set_status, write_transition}
use ai_factory_lab.Store.Tasks.Writes.{apply-written, apply-full, Written, write_transition-Written}
use ai_factory_lab.Exec.{Ports, World, pure, raise, ask, transact, ◌>>=◌}
use ai_factory_lab.Exec.Keeps.{Keeps, keeps_rules, Keeps-transact, Keeps-bind}
use ai_factory_lab.Orchestration.Transitions.{
  apply_transition, transition_task, require_task, transition, can_apply,
}

pub require_task-Keeps : {P : Db → Type 0} (task_id : String) → Keeps P (require_task task_id)
unfolding require_task
require_task-Keeps task_id = search keeps_rules

module _ {enters : TaskStatus → Bool} {P : Db → Type 0} (applied : KeptByApply enters P) (p : Ports)
    (task_id : String) (target : TaskStatus) (entered : enters target ≡ true) where
  apply_transition-Keeps :
      (from : TaskStatus)
      → can_transition from target ≡ true
      → Keeps P (apply_transition p task_id from target)
  unfolding apply_transition Tasks.apply_transition
  apply_transition-Keeps from edge = Keeps-bind (ask p.now) _ (search keeps_rules) (λ now.
      Keeps-bind (ask p.uuid) _ (search keeps_rules) (λ uid.
        Keeps-transact _
          (λ db. applied p.max_active_claims task_id from target now uid db entered edge)))

  checked-Keeps :
      (task : FactoryTask)
      → Keeps P (
          if not (can_apply task target)
          then raise (invalid_transition task.status target)
          else apply_transition p task_id task.status target)
  unfolding can_apply
  checked-Keeps task = elim (Bool-cases (can_transition task.status target)) [
    | inl edge ↦ rw edge (apply_transition-Keeps task.status edge)
    | inr illegal ↦ rw illegal (search keeps_rules)
  ]

  transition_task-Keeps :
      (expected : Option TaskStatus) (task : FactoryTask)
      → Keeps P (transition_task p task_id target expected task)
  unfolding transition_task
  transition_task-Keeps none task = search (keeps_rules, checked-Keeps)
  transition_task-Keeps (some e) task = search (keeps_rules, checked-Keeps)

  -- Every call of `transition`, whether it returns or raises, keeps every stable property.
  pub transition-Keeps :
      (expected : Option TaskStatus) → Keeps P (transition p task_id target expected)
  unfolding transition
  transition-Keeps expected =
      Keeps-bind (require_task task_id) _ (require_task-Keeps task_id)
        (λ task. transition_task-Keeps expected task)

persisted_edge :
    (from target : TaskStatus)
    → can_transition from target ≡ true
    → (terminal_resolution false from target || can_persist_transition from target) ≡ true
unfolding terminal_resolution can_persist_transition
persisted_edge from target edge = rw edge

module _ (p : Ports) (task_id : String) (target : TaskStatus) (w : World) where
  transition-found :
      {task : FactoryTask} (expected : Option TaskStatus)
      → find_task task_id w.db ≡ some task
      → transition p task_id target expected w ≡ transition_task p task_id target expected task w
  unfolding transition ◌>>=◌
  transition-found expected found = rw (found, or_raise)

  transition-unmet :
      {task : FactoryTask}
      → find_task task_id w.db ≡ some task
      → task.status ≢ target
      → transition p task_id target none w
        ≡ (if not (can_apply task target)
              then raise (invalid_transition task.status target)
              else apply_transition p task_id task.status target)
            w
  transition-unmet {task} found differs =
      rw (transition-found none found)
        (unfold transition_task in rw (==_ne task.status target differs))

  -- The world after the transition `from -> target` was written.
  abbrev pub moved : TaskStatus → World
  moved from = record w {
    db = write_transition task_id from target (p.now w.tick) (p.uuid (suc w.tick)) w.db;
    tick = suc (suc w.tick);
  }

  apply_transition_written :
      {task : FactoryTask}
      → find_task task_id w.db ≡ some task
      → can_transition task.status target ≡ true
      → idle_guard p.max_active_claims task_id target w.db ≡ true
      → apply_transition p task_id task.status target w
        ≡ (ok (set_status target (p.now w.tick) task), moved task.status)
  unfolding apply_transition ◌>>=◌ transact Tasks.apply_transition
  apply_transition_written {task} found edge room = rw (
      apply-written p.max_active_claims false task_id task.status target (p.now w.tick)
        (p.uuid (suc w.tick)) w.db found refl (persisted_edge task.status target edge) room)

  -- The branches of `transition` for a stored task and no expected status: a task in the target
  -- status is returned and nothing is written; a pair that is no edge of the normal graph is refused
  -- and nothing is written; along an edge, and for a claim with room, exactly the row's status and
  -- time change and one history row is appended.
  pub transition_branches :
      {task : FactoryTask}
      → find_task task_id w.db ≡ some task
      → (task.status ≡ target → transition p task_id target none w ≡ (ok task, w))
        × (task.status ≢ target
            → can_transition task.status target ≡ false
            → transition p task_id target none w ≡ (err (invalid_transition task.status target), w))
        × (task.status ≢ target
            → can_transition task.status target ≡ true
            → idle_guard p.max_active_claims task_id target w.db ≡ true
            → transition p task_id target none w
              ≡ (ok (set_status target (p.now w.tick) task), moved task.status))
  transition_branches {task} found = (
    λ same.
        rw (transition-found none found)
          (unfold transition_task pure in rw same (rw (==_refl target))),
    λ differs illegal. rw (transition-unmet found differs) (unfold can_apply raise in rw illegal),
    λ differs edge room.
        rw (transition-unmet found differs)
          (unfold can_apply in rw edge (apply_transition_written found edge room)),
  )

  -- The world after a claim that found no room: only the clock and the identifiers were asked.
  abbrev pub asked_in_vain : World
  asked_in_vain = record w { tick = suc (suc w.tick) }

  apply_transition_full :
      {task : FactoryTask}
      → find_task task_id w.db ≡ some task
      → can_transition task.status target ≡ true
      → idle_guard p.max_active_claims task_id target w.db ≡ false
      → apply_transition p task_id task.status target w
        ≡ (err (task_state_changed task_id task.status task.status), asked_in_vain)
  unfolding apply_transition ◌>>=◌ transact Tasks.apply_transition
  apply_transition_full {task} found edge full = rw (
      apply-full p.max_active_claims false task_id task.status target (p.now w.tick)
        (p.uuid (suc w.tick)) w.db found refl (persisted_edge task.status target edge) full)

  -- How a transition of a stored task may end when no status is expected. Two asks of the clock and
  -- for an identifier are all that a written or a full one does outside.
  pub data Ends (task : FactoryTask) : Result FactoryTask × World → Type 0 where
    settled : task.status ≡ target → Ends task (ok task, w)
    illegal :
        task.status ≢ target
        → can_transition task.status target ≡ false
        → Ends task (err (invalid_transition task.status target), w)
    full :
        target ≡ TaskStatus.claimed
        → can_transition task.status target ≡ true
        → idle_guard p.max_active_claims task_id target w.db ≡ false
        → Ends task (err (task_state_changed task_id task.status task.status), asked_in_vain)
    written :
        task.status ≢ target
        → can_transition task.status target ≡ true
        → idle_guard p.max_active_claims task_id target w.db ≡ true
        → {after : Db}
        → Written task_id task.status target (p.now w.tick) (p.uuid (suc w.tick)) w.db after
        → Ends task (
          ok (record task { status = target; updated_at = p.now w.tick }),
          record w { db = after; tick = suc (suc w.tick) },
        )

  transition-full :
      {task : FactoryTask}
      → find_task task_id w.db ≡ some task
      → task.status ≢ target
      → can_transition task.status target ≡ true
      → idle_guard p.max_active_claims task_id target w.db ≡ false
      → transition p task_id target none w
        ≡ (err (task_state_changed task_id task.status task.status), asked_in_vain)
  transition-full found differs edge no_room =
      transition-unmet found differs
      ∙ unfold can_apply in rw edge (apply_transition_full found edge no_room)

  full_claims :
      idle_guard p.max_active_claims task_id target w.db ≡ false → target ≡ TaskStatus.claimed
  unfolding idle_guard
  full_claims h = (task_status_eq.beq_iff target TaskStatus.claimed).0 (ground (arith, h))

  -- Every call of `transition` for a stored task and no expected status ends in one of four ways: a
  -- task in the target status is returned and nothing is written; a pair that is no edge of the
  -- normal graph is refused and nothing is written; a claim without room is refused and nothing is
  -- written; along an edge, the row gets the new status and the clock's time, the history gets one
  -- row of this transition, all other rows and tables stay, and the task is returned as it is stored.
  pub transition-outcome :
      {task : FactoryTask}
      → find_task task_id w.db ≡ some task
      → Ends task (transition p task_id target none w)
  unfolding set_status
  transition-outcome {task} found = elim (Bool-cases (task.status == target)) [
    | inl same ↦
        let here = (task_status_eq.beq_iff task.status target).0 same in
        rw ((transition_branches found).0 here) (settled here)
    | inr other ↦
        let differs = ==_false task.status target other in
        elim (Bool-cases (can_transition task.status target)) [
          | inr no_edge ↦
              rw ((transition_branches found).1 differs no_edge) (illegal differs no_edge)
          | inl edge ↦ elim (Bool-cases (idle_guard p.max_active_claims task_id target w.db)) [
            | inl room ↦ rw ((transition_branches found).2 differs edge room) (
                written differs edge room (
                  write_transition-Written task_id task.status target (p.now w.tick)
                    (p.uuid (suc w.tick)) w.db))
            | inr no_room ↦
                rw (transition-full found differs edge no_room)
                  (full (full_claims no_room) edge no_room)
          ]
        ]
  ]
