-- ===== src/Store/Tasks/Claims.antt =====
-- The bound on work in progress that a claim's UPDATE enforces in `_apply_transition` of
-- src/factory/infrastructure/persistence/sqlite.py.
use ai_factory_lab.Common.{
  ℕ, ◌≤◌, String, ◌≡◌, refl, ap, Bool, true, false, not, ◌&&◌, ◌||◌, List, [], ◌∷◌, ◌++◌, map, inl,
  inr, ◌==◌, string_eq, Bool-cases, contains, select, any, update_where, updated, arith,
}
use ai_factory_lab.Domain.Enums.{TaskStatus, task_status_eq}
use ai_factory_lab.Domain.Lifecycle.{can_transition, persistence_only, can_persist_transition}
use ai_factory_lab.Domain.Models.{FactoryTask}
use ai_factory_lab.Domain.Errors.{Result, ok}
use ai_factory_lab.Store.{Db, RunRow, is_busy, is_active, is_busy_status}
use ai_factory_lab.Store.Tasks.{
  count_distinct, busy_ids, idle_guard, terminal_resolution, apply_transition, write_transition,
  in_status, set_status,
}
use ai_factory_lab.Store.Tasks.Distinct.{Names, count_distinct_mono}
use ai_factory_lab.Store.Tasks.Writes.{Applied, apply-atomic}

contains-append :
    (x : String) (xs ys : List String) → contains (xs ++ ys) x ≡ (contains xs x || contains ys x)
contains-append x [] ys = refl
contains-append x (y ∷ xs) ys = ground (arith, contains-append x xs ys)

module _ {A : Type 0} (key : A → String) where
  contains-map-select :
      (p : A → Bool) (x : String) (rows : List A)
      → contains (map key (select p rows)) x ≡ any (λ r. p r && x == key r) rows
  contains-map-select p x [] = refl
  contains-map-select p x (r ∷ rows) = ground (arith, contains-map-select p x rows)

module _ {A : Type 0} where
  any_mono :
      (q q' : A → Bool) (rows : List A)
      → ((r : A) → q' r ≡ true → q r ≡ true)
      → any q' rows ≡ true
      → any q rows ≡ true
  any_mono q q' [] keeps h = h
  any_mono q q' (r ∷ rows) keeps h = ground (arith, keeps r, any_mono q q' rows keeps)

  any-update_where :
      (q q' p : A → Bool) (f : A → A) (rows : List A)
      → ((r : A) → q' (updated p f r) ≡ true → q r ≡ true)
      → any q' (update_where p f rows) ≡ true
      → any q rows ≡ true
  any-update_where q q' p f [] keeps h = h
  any-update_where q q' p f (r ∷ rows) keeps h =
      ground (arith, keeps r, any-update_where q q' p f rows keeps)

-- The busy tasks, and the tasks with an active run.
abbrev pub in_progress : Db → ℕ
in_progress db = count_distinct (busy_ids (λ _. true) db)

-- A task is busy among those that `keeps` chooses.
abbrev busy_row : (String → Bool) → String → FactoryTask → Bool
busy_row keeps x t = (keeps t.task_id && is_busy t) && x == t.task_id

abbrev active_row : (String → Bool) → String → RunRow → Bool
active_row keeps x r = (keeps r.run.task_id && is_active r) && x == r.run.task_id

contains-busy_ids :
    (keeps : String → Bool) (x : String) (db : Db)
    → contains (busy_ids keeps db) x
      ≡ (any (busy_row keeps x) db.tasks || any (active_row keeps x) db.runs)
unfolding busy_ids
contains-busy_ids keeps x db = rw contains-append (
    rw
      (contains-map-select (λ (t : FactoryTask). t.task_id) (λ t. keeps t.task_id && is_busy t) x
        db.tasks)
      (rw (
        contains-map-select (λ (r : RunRow). r.run.task_id)
          (λ r. keeps r.run.task_id && is_active r) x db.runs)))

module _ (task_id : String) (from target : TaskStatus) (now : ℕ) (uid : String) (db : Db) where
  -- A row that is in progress after the write was so before it, or is the written task's.
  row-claimed :
      (x : String) (r : FactoryTask)
      → (x == task_id) ≡ false
      → busy_row (λ _. true) x (updated (in_status task_id from) (set_status target now) r) ≡ true
      → busy_row (λ id. not (id == task_id)) x r ≡ true
  unfolding set_status in_status
  row-claimed x r other h = ground (
    arith,
    string_eq.beq_iff x r.task_id,
    string_eq.beq_iff x task_id,
    string_eq.beq_iff r.task_id task_id,
  )

  row-kept :
      (x : String) (r : FactoryTask)
      → (is_busy_status target ≡ true → is_busy_status from ≡ true)
      → busy_row (λ _. true) x (updated (in_status task_id from) (set_status target now) r) ≡ true
      → busy_row (λ _. true) x r ≡ true
  unfolding set_status in_status is_busy
  row-kept x r keeps h = elim (Bool-cases (r.status == from)) [
    | inl same ↦
        ground (arith, ap is_busy_status ((task_status_eq.beq_iff r.status from).0 same), keeps)
    | inr other ↦ ground arith
  ]

  active-elsewhere :
      (x : String) (r : RunRow)
      → (x == task_id) ≡ false
      → active_row (λ _. true) x r ≡ true
      → active_row (λ id. not (id == task_id)) x r ≡ true
  active-elsewhere x r other h = ground (
    arith,
    string_eq.beq_iff x r.run.task_id,
    string_eq.beq_iff x task_id,
    string_eq.beq_iff r.run.task_id task_id,
  )

  -- After a claim the work in progress is the claimed task and what was in progress elsewhere.
  Names-claimed :
      Names
        (busy_ids (λ _. true) (write_transition task_id from target now uid db))
        (task_id ∷ busy_ids (λ id. not (id == task_id)) db)
  unfolding write_transition
  Names-claimed x held = elim (Bool-cases (x == task_id)) [
    | inl same ↦ rw same
    | inr other ↦ ground (
      arith,
      rw contains-busy_ids at held,
      contains-busy_ids (λ id. not (id == task_id)) x db,
      any-update_where (busy_row (λ id. not (id == task_id)) x) (busy_row (λ _. true) x)
          (in_status task_id from) (set_status target now) db.tasks (λ r. row-claimed x r other),
      any_mono (active_row (λ id. not (id == task_id)) x) (active_row (λ _. true) x) db.runs
          (λ r. active-elsewhere x r other),
    )
  ]

  -- A transition into a status that is busy only where the old one was adds no work in progress.
  Names-kept :
      (is_busy_status target ≡ true → is_busy_status from ≡ true)
      → Names
          (busy_ids (λ _. true) (write_transition task_id from target now uid db))
          (busy_ids (λ _. true) db)
  unfolding write_transition
  Names-kept keeps x held = ground (
    arith,
    rw contains-busy_ids at held,
    contains-busy_ids (λ _. true) x db,
    any-update_where (busy_row (λ _. true) x) (busy_row (λ _. true) x) (in_status task_id from)
        (set_status target now) db.tasks (λ r. row-kept x r keeps),
  )

-- The edges that persistence applies into a busy status other than CLAIMED come from a busy one,
-- but for the return of a blocked publication to VALIDATING.
busy_edge :
    (from target : TaskStatus)
    → can_persist_transition from target ≡ true
    → (target ≡ TaskStatus.claimed → ⊥)
    → ((from ≡ TaskStatus.blocked) × (target ≡ TaskStatus.validating) → ⊥)
    → is_busy_status target ≡ true
    → is_busy_status from ≡ true
unfolding can_persist_transition can_transition persistence_only is_busy_status
busy_edge from target edge other resumed busy = ground arith

module _ (max_claims : ℕ) (task_id : String) (from target : TaskStatus) (now : ℕ) (uid : String)
    (db : Db) where
  in_progress_claimed :
      {task : FactoryTask}
      → target ≡ TaskStatus.claimed
      → Applied max_claims false task_id from target now uid db task
      → in_progress (write_transition task_id from target now uid db) ≤ max_claims
  unfolding idle_guard count_distinct
  in_progress_claimed claim applied = ground (
    arith,
    applied.room,
    count_distinct_mono (busy_ids (λ _. true) (write_transition task_id from target now uid db))
        (task_id ∷ busy_ids (λ id. not (id == task_id)) db)
        (Names-claimed task_id from target now uid db),
  )

  in_progress_kept :
      {task : FactoryTask}
      → Applied max_claims false task_id from target now uid db task
      → (target ≡ TaskStatus.claimed → ⊥)
      → ((from ≡ TaskStatus.blocked) × (target ≡ TaskStatus.validating) → ⊥)
      → in_progress (write_transition task_id from target now uid db) ≤ in_progress db
  in_progress_kept applied other resumed =
      count_distinct_mono (busy_ids (λ _. true) (write_transition task_id from target now uid db))
        (busy_ids (λ _. true) db)
        (Names-kept task_id from target now uid db
          (busy_edge from target (unfold terminal_resolution in applied.edge) other resumed))

-- A claim that succeeds leaves at most `max_claims` tasks in progress, counting each task that is
-- CLAIMED, RUNNING, VALIDATING or PR_OPEN or has an active run once, whatever was in progress before.
pub claim-le-max_claims :
    (max_claims : ℕ) (task_id : String) (from : TaskStatus) (now : ℕ) (uid : String) (db : Db)
    {task : FactoryTask}
    → (apply_transition max_claims task_id from TaskStatus.claimed now uid db).0 ≡ ok task
    → in_progress (apply_transition max_claims task_id from TaskStatus.claimed now uid db).1
      ≤ max_claims
unfolding apply_transition
claim-le-max_claims max_claims task_id from now uid db won =
    elim (apply-atomic max_claims false task_id from TaskStatus.claimed now uid db) [
      | inl (e, raised) ↦ cc (won, ap (λ (r : Result FactoryTask × Db). r.0) raised)
      | inr (task, applied) ↦
          rw applied.result
            (in_progress_claimed max_claims task_id from TaskStatus.claimed now uid db refl applied)
    ]

-- Any transition, applied or refused, keeps the work in progress within the claim limit where it was
-- within it, unless the transition resumes a BLOCKED publication at VALIDATING.
pub transition-within_limit :
    (max_claims : ℕ) (task_id : String) (from target : TaskStatus) (now : ℕ) (uid : String)
    (db : Db)
    → in_progress db ≤ max_claims
    → ((from ≡ TaskStatus.blocked) × (target ≡ TaskStatus.validating) → ⊥)
    → in_progress (apply_transition max_claims task_id from target now uid db).1 ≤ max_claims
unfolding apply_transition
transition-within_limit max_claims task_id from target now uid db within resumed =
    elim (apply-atomic max_claims false task_id from target now uid db) [
      | inl (e, raised) ↦ rw raised within
      | inr (task, applied) ↦ rw applied.result (elim (Bool-cases (target == TaskStatus.claimed)) [
        | inl claim ↦
            in_progress_claimed max_claims task_id from target now uid db
              ((task_status_eq.beq_iff target TaskStatus.claimed).0 claim) applied
        | inr other ↦ omega (
          arith,
          in_progress_kept max_claims task_id from target now uid db applied
              (λ e. cc (other, (task_status_eq.beq_iff target TaskStatus.claimed).1 e)) resumed,
        )
      ])
    ]
