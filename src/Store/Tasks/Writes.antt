-- ===== src/Store/Tasks/Writes.antt =====
-- `_apply_transition` of src/factory/infrastructure/persistence/sqlite.py as a compare-and-swap.
use mathlib.Core.Option
use mathlib.Core.List.{append-nil}
use ai_factory_lab.Common.{
  ℕ, String, ◌≡◌, ◌≢◌, refl, ap, Bool, true, false, none, some, ◌⊎◌, inl, inr, ◌==◌, ◌||◌,
  string_eq, ==_refl, ==_ne, Bool-cases, Option-cases, updated, find-update_where, find_holds,
  arith, if◌then◌else◌, [], ◌∷◌, ◌++◌, select-append, List, map, update_where, ◌&&◌,
}
use ai_factory_lab.Domain.Enums.{TaskStatus, task_status_eq}
use ai_factory_lab.Domain.Models.{FactoryTask}
use ai_factory_lab.Domain.Lifecycle.{can_persist_transition}
use ai_factory_lab.Domain.Errors.{
  Error, Result, ok, err, key_error, task_state_changed, invalid_transition,
}
use ai_factory_lab.Store.{Db, is_task, find_task}
use ai_factory_lab.Store.Tasks.{
  in_status, set_status, record_transition, idle_guard, write_transition, read_back, guarded_write,
  terminal_resolution, checked_transition, apply, apply_transition, history,
}

module _ (task_id : String) (from target : TaskStatus) (now : ℕ) (uid : String) (db : Db) where
  -- The row of any task after the write.
  pub find_task-write :
      (j : String)
      → find_task j (write_transition task_id from target now uid db)
        ≡ Option.map (updated (in_status task_id from) (set_status target now)) (find_task j db)
  unfolding find_task write_transition
  find_task-write j =
      find-update_where (is_task j) (in_status task_id from) (set_status target now) db.tasks
        (λ x. ground arith)

  pub find_task-write_self :
      {task : FactoryTask}
      → find_task task_id db ≡ some task
      → task.status ≡ from
      → find_task task_id (write_transition task_id from target now uid db)
        ≡ some (set_status target now task)
  find_task-write_self {task} found here =
      rw (find_task-write task_id, found)
        (unfold find_task in_status in
          rw (here, find_holds (is_task task_id) db.tasks found, ==_refl from) refl)

  -- The read-back after a write finds the row that was written.
  read_back-write :
      {task : FactoryTask}
      → find_task task_id db ≡ some task
      → task.status ≡ from
      → read_back task_id (write_transition task_id from target now uid db)
        ≡ (ok (set_status target now task), write_transition task_id from target now uid db)
  read_back-write found here = unfold read_back in rw (find_task-write_self found here, read_back)

  -- Only the named task's history grows, by the transition that was applied.
  pub history-write :
      (j : String)
      → history j (write_transition task_id from target now uid db) ≡ (
          if task_id == j
          then history j db ++ record_transition uid task_id from target now ∷ []
          else history j db)
  unfolding history write_transition
  history-write j = elim (Bool-cases (task_id == j)) [
    | inl same ↦ rw select-append (rw same)
    | inr other ↦ rw select-append (rw other (append-nil (history j db)))
  ]

module _ (max_claims : ℕ) (allow : Bool) (task_id : String) (from target : TaskStatus) (now : ℕ)
    (uid : String) (db : Db) where
  apply-missing :
      find_task task_id db ≡ none
      → apply max_claims allow task_id from target now uid db ≡ (err (key_error task_id), db)
  unfolding apply
  apply-missing missing = rw (missing, apply)

  module _ {task : FactoryTask} (found : find_task task_id db ≡ some task) where
    apply-moved :
        (task.status == from) ≡ false
        → apply max_claims allow task_id from target now uid db
          ≡ (err (task_state_changed task_id from task.status), db)
    unfolding apply checked_transition
    apply-moved moved = rw (found, apply) (rw moved)

    module _ (here : task.status ≡ from) where
      apply-here :
          apply max_claims allow task_id from target now uid db
          ≡ checked_transition max_claims allow task_id from target now uid from db
      unfolding apply
      apply-here = rw (found, apply) (rw here)

      apply-illegal :
          (terminal_resolution allow from target || can_persist_transition from target) ≡ false
          → apply max_claims allow task_id from target now uid db
            ≡ (err (invalid_transition from target), db)
      unfolding checked_transition
      apply-illegal illegal = rw apply-here (rw (==_refl from, illegal))

      apply-guarded :
          (terminal_resolution allow from target || can_persist_transition from target) ≡ true
          → apply max_claims allow task_id from target now uid db
            ≡ guarded_write max_claims task_id from target now uid db
      unfolding checked_transition
      apply-guarded edge = rw apply-here (rw (==_refl from, edge))

      module _
          (edge : (terminal_resolution allow from target || can_persist_transition from target)
            ≡ true) where
        pub apply-full :
            idle_guard max_claims task_id target db ≡ false
            → apply max_claims allow task_id from target now uid db
              ≡ (err (task_state_changed task_id from from), db)
        unfolding guarded_write
        apply-full full = rw (apply-guarded edge) (rw full)

        pub apply-written :
            idle_guard max_claims task_id target db ≡ true
            → apply max_claims allow task_id from target now uid db
              ≡ (ok (set_status target now task), write_transition task_id from target now uid db)
        unfolding guarded_write
        apply-written room =
            rw (apply-guarded edge)
              (rw room (read_back-write task_id from target now uid db found here))

  -- What a transition that was applied says of the database before it and after it.
  pub record Applied (task : FactoryTask) : Type 0 where
    pub stored : find_task task_id db ≡ some task
    pub expected : task.status ≡ from
    pub edge : (terminal_resolution allow from target || can_persist_transition from target) ≡ true
    pub room : idle_guard max_claims task_id target db ≡ true
    pub result :
        apply max_claims allow task_id from target now uid db
        ≡ (ok (set_status target now task), write_transition task_id from target now uid db)

  -- Every call of `_apply_transition` either raises and leaves the database as it was, or finds the
  -- task in the expected status with an allowed edge and, for a claim, room; it then changes that
  -- row's status and time and appends one history row.
  pub apply-atomic :
      ((e : Error) × (apply max_claims allow task_id from target now uid db ≡ (err e, db)))
      ⊎ ((task : FactoryTask) × Applied task)
  apply-atomic = elim (Option-cases (find_task task_id db)) [
    | inl missing ↦ inl (key_error task_id, apply-missing missing)
    | inr (task, found) ↦ elim (Bool-cases (task.status == from)) [
      | inr moved ↦ inl (task_state_changed task_id from task.status, apply-moved found moved)
      | inl same ↦
          let here : task.status ≡ from = (task_status_eq.beq_iff task.status from).0 same in
          elim (Bool-cases
            (terminal_resolution allow from target || can_persist_transition from target)) [
              | inr illegal ↦ inl (invalid_transition from target, apply-illegal found here illegal)
              | inl edge ↦ elim (Bool-cases (idle_guard max_claims task_id target db)) [
                | inr full ↦
                    inl (task_state_changed task_id from from, apply-full found here edge full)
                | inl room ↦ inr (
                  task,
                  record {
                    stored = found;
                    expected = here;
                    edge = edge;
                    room = room;
                    result = apply-written found here edge room;
                  },
                )
              ]
            ]
    ]
  ]

-- What an applied transition leaves: the tasks with the named row's status and time changed, the
-- history with one row more, and every other table as it was.
pub record Written (task_id : String) (from target : TaskStatus) (now : ℕ) (uid : String)
    (db after : Db) : Type 0 where
  pub tasks :
      after.tasks
      ≡ map
          (λ t.
            if t.task_id == task_id && t.status == from
            then record t { status = target; updated_at = now }
            else t)
          db.tasks
  pub rows :
      after.transitions
      ≡ db.transitions
        ++ record {
          transition_id = uid;
          task_id = task_id;
          from_status = from;
          to_status = target;
          occurred_at = now;
        }
          ∷ []
  pub rest : after ≡ record db { tasks = after.tasks; transitions = after.transitions }

update_where-map :
    {A : Type 0} (p : A → Bool) (f : A → A) (xs : List A)
    → update_where p f xs ≡ map (λ x. if p x then f x else x) xs
update_where-map p f [] = refl
update_where-map p f (x ∷ xs) = ap (λ ys. (if p x then f x else x) ∷ ys) (update_where-map p f xs)

pub write_transition-Written :
    (task_id : String) (from target : TaskStatus) (now : ℕ) (uid : String) (db : Db)
    → Written task_id from target now uid db (write_transition task_id from target now uid db)
unfolding write_transition in_status set_status record_transition is_task
write_transition-Written task_id from target now uid db = record {
  tasks =
      update_where-map (λ t. t.task_id == task_id && t.status == from)
        (λ t. record t { status = target; updated_at = now }) db.tasks;
  rows = refl;
  rest = refl;
}

-- Every call of `apply_transition` either raises and leaves the database as it was, or finds the
-- task in the expected status with an edge of the persisted graph and, for a claim, room; it then
-- returns the task with the new status and time, in a database where that row has them, where the
-- history has one more row, of this transition, and where all else is as it was.
pub apply_transition-atomic :
    (max_claims : ℕ) (task_id : String) (from target : TaskStatus) (now : ℕ) (uid : String)
    (db : Db)
    → ((e : Error) × (apply_transition max_claims task_id from target now uid db ≡ (err e, db)))
      ⊎ ((task : FactoryTask) × (after : Db) × (find_task task_id db ≡ some task)
          × (task.status ≡ from)
          × (can_persist_transition from target ≡ true)
          × (idle_guard max_claims task_id target db ≡ true)
          × (apply_transition max_claims task_id from target now uid db
              ≡ (ok (record task { status = target; updated_at = now }), after))
          × (find_task task_id after ≡ some (record task { status = target; updated_at = now }))
          × Written task_id from target now uid db after)
unfolding apply_transition terminal_resolution set_status
apply_transition-atomic max_claims task_id from target now uid db =
    elim (apply-atomic max_claims false task_id from target now uid db) [
      | inl raised ↦ inl raised
      | inr (task, applied) ↦ inr (
        task,
        write_transition task_id from target now uid db,
        applied.stored,
        applied.expected,
        applied.edge,
        applied.room,
        applied.result,
        find_task-write_self task_id from target now uid db applied.stored applied.expected,
        write_transition-Written task_id from target now uid db,
      )
    ]

-- Of two callers that read the same status, the second loses: after a transition away from `from`
-- was applied, any other that expects `from` raises and changes nothing.
pub apply_transition-loser :
    (max_claims : ℕ) (task_id : String) (from target target' : TaskStatus) (now now' : ℕ)
    (uid uid' : String) (db : Db) {task : FactoryTask}
    → (apply_transition max_claims task_id from target now uid db).0 ≡ ok task
    → target ≢ from
    → let after = (apply_transition max_claims task_id from target now uid db).1 in
      apply_transition max_claims task_id from target' now' uid' after
      ≡ (err (task_state_changed task_id from target), after)
unfolding set_status apply_transition
apply_transition-loser max_claims task_id from target target' now now' uid uid' db won away =
    elim (apply-atomic max_claims false task_id from target now uid db) [
      | inl (e, raised) ↦ cc (won, ap (λ (r : Result FactoryTask × Db). r.0) raised)
      | inr (before, applied) ↦ rw applied.result (
          apply-moved max_claims false task_id from target' now' uid'
            (write_transition task_id from target now uid db)
            (find_task-write_self task_id from target now uid db applied.stored applied.expected)
            (==_ne target from away))
    ]
