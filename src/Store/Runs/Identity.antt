-- ===== src/Store/Runs/Identity.antt =====
-- What src/factory/infrastructure/persistence/run_sqlite.py keeps of the stored runs.
use ai_factory_lab.Common.{
  ℕ, suc, ◌≤◌, String, ◌≡◌, inl, inr, refl, Bool, true, false, ◌&&◌, Option, List, [], ◌∷◌, ◌++◌,
  map, ◌==◌, string_eq, option_eq, if◌then◌else◌, any, count, update_where, Bool-cases,
  Option-cases, arith, none, some, ◌⊎◌, contains, ==_refl,
}
use ai_factory_lab.Domain.Models.{AgentRun, FactoryTask, ContextPack}
use ai_factory_lab.Domain.Errors.{Error, Result, ok, err, duplicate_run, persistence_error}
use ai_factory_lab.Domain.Enums.{run_status_eq}
use ai_factory_lab.Store.{Db, RunRow, is_active, find_task, active_statuses}
use ai_factory_lab.Store.Runs.{
  save_run, save_checked, insert_run, update_run, update_checked, write_run, to_row, breaks_unique,
  ensure_workspace, workspace_id_of, run_identity_ok, owns_workspace,
}

-- Who a stored run belongs to, where it works, and what it was given.
pub record RunIdentity : Type 0 where
  pub run_id : String
  pub task_id : String
  pub project_id : String
  pub workspace_id : Option String
  pub worker_id : Option String
  pub session_id : Option String
  pub context_pack : Option ContextPack
  pub created_at : ℕ

unfoldable pub identity : RunRow → RunIdentity
identity row = record {
  run_id = row.run.run_id;
  task_id = row.run.task_id;
  project_id = row.run.project_id;
  workspace_id = row.workspace_id;
  worker_id = row.run.worker_id;
  session_id = row.run.session_id;
  context_pack = row.run.context_pack;
  created_at = row.created_at;
}

identity-update :
    (run : AgentRun) (p : RunRow → Bool) (rows : List RunRow)
    → map identity (update_where p (write_run run) rows) ≡ map identity rows
unfolding identity write_run
identity-update run p [] = refl
identity-update run p (r ∷ rows) = ground (arith, identity-update run p rows)

-- `update_run` never inserts, deletes, reorders or re-associates a run: whatever it is given, and
-- whether it returns or raises, the identities of the stored runs are the same list as before.
pub identity-update_run :
    (run : AgentRun) (db : Db) → map identity (update_run run db).1.runs ≡ map identity db.runs
unfolding update_run update_checked
identity-update_run run db =
    ground (arith, identity-update run (λ r. r.run.run_id == run.run_id) db.runs)

-- The active runs of a task.
abbrev pub active_of : String → Db → ℕ
active_of task_id db = count (λ r. r.run.task_id == task_id && is_active r) db.runs

count-append_one :
    {A : Type 0} (p : A → Bool) (xs : List A) (x : A)
    → count p (xs ++ x ∷ []) ≡ (if p x then suc (count p xs) else count p xs)
count-append_one p [] x = refl
count-append_one p (y ∷ ys) x = ground (arith, count-append_one p ys x)

count_none :
    {A : Type 0} (p q : A → Bool) (xs : List A)
    → ((x : A) → p x ≡ true → q x ≡ true)
    → any q xs ≡ false
    → count p xs ≡ 0
count_none p q [] within h = refl
count_none p q (x ∷ xs) within h = ground (arith, within x, count_none p q xs within)

breaks_of_active :
    (run : AgentRun) (now : ℕ) (task_id : String) (r : RunRow)
    → is_active (to_row run now) ≡ true
    → (run.task_id == task_id) ≡ true
    → (r.run.task_id == task_id && is_active r) ≡ true
    → breaks_unique (to_row run now) r ≡ true
unfolding breaks_unique to_row
breaks_of_active run now task_id r active same held = ground (
  arith,
  string_eq.beq_iff run.task_id task_id,
  string_eq.beq_iff r.run.task_id task_id,
  string_eq.beq_iff r.run.task_id run.task_id,
)

active_of-new_row :
    (run : AgentRun) (now : ℕ) (db : Db) (task_id : String)
    → active_of task_id db ≤ 1
    → any (breaks_unique (to_row run now)) db.runs ≡ false
    → (if (to_row run now).run.task_id == task_id && is_active (to_row run now)
        then suc (active_of task_id db)
        else active_of task_id db)
      ≤ 1
active_of-new_row run now db task_id within fits =
    elim (Bool-cases ((to_row run now).run.task_id == task_id && is_active (to_row run now))) [
      | inr other ↦ rw other within
      | inl second ↦ rw second (
          omega (
            arith,
            count_none (λ r. r.run.task_id == task_id && is_active r)
                (breaks_unique (to_row run now)) db.runs
                (λ r.
                  breaks_of_active run now task_id r (unfold to_row in ground (arith, second))
                    (unfold to_row in ground (arith, second)))
                fits,
          ))
    ]

active_of-insert_run :
    (run : AgentRun) (now : ℕ) (db : Db) (task_id : String)
    → active_of task_id db ≤ 1
    → active_of task_id (insert_run run now db).1 ≤ 1
unfolding insert_run
active_of-insert_run run now db task_id within =
    elim (Bool-cases (any (breaks_unique (to_row run now)) db.runs)) [
      | inl broken ↦ rw broken within
      | inr fits ↦ rw fits (rw count-append_one (active_of-new_row run now db task_id within fits))
    ]

active_of-save_checked :
    (run : AgentRun) (now : ℕ) (db : Db) (task_id : String) (owner : FactoryTask)
    → active_of task_id db ≤ 1
    → active_of task_id (save_checked run now owner db).1 ≤ 1
unfolding save_checked
active_of-save_checked run now db task_id owner within =
    ground (arith, active_of-insert_run run now db task_id)

-- How `save_run` ends: it raises and writes nothing, or it adds the run as the last row, in the
-- place where it works, and then the run is not active or its task had no active run.
pub data Saves (run : AgentRun) (now : ℕ) (db : Db) : Result AgentRun × Db → Type 0 where
  refused : (e : Error) → Saves run now db (err e, db)
  added :
      (after : Db)
      → after.runs
        ≡ db.runs
          ++ record {
            run = record run { workspace = none };
            workspace_id = elim run.workspace [ none ↦ none | some w ↦ some w.workspace_id ];
            created_at = now;
          }
            ∷ []
      → (contains active_statuses run.status ≡ false) ⊎ (active_of run.task_id db ≡ 0)
      → Saves run now db (ok run, after)

insert_run-Saves : (run : AgentRun) (now : ℕ) (db : Db) → Saves run now db (insert_run run now db)
unfolding insert_run
insert_run-Saves run now db = elim (Bool-cases (any (breaks_unique (to_row run now)) db.runs)) [
  | inl broken ↦ rw broken (refused (duplicate_run run.run_id))
  | inr fits ↦ rw fits (
      added (record (ensure_workspace run.workspace db) { runs = db.runs ++ to_row run now ∷ [] })
        (unfold to_row workspace_id_of in refl)
        (elim (Bool-cases (is_active (to_row run now))) [
          | inr idle ↦ inl (unfold is_active to_row in idle)
          | inl active ↦ inr (
              count_none (λ r. r.run.task_id == run.task_id && is_active r)
                (breaks_unique (to_row run now)) db.runs
                (λ r. breaks_of_active run now run.task_id r active (==_refl run.task_id)) fits)
        ]))
]

save_run-Saves : (run : AgentRun) (now : ℕ) (db : Db) → Saves run now db (save_run run now db)
unfolding save_run save_checked
save_run-Saves run now db = elim (Option-cases (find_task run.task_id db)) [
  | inl missing ↦ rw (missing, save_run) (refused persistence_error)
  | inr (owner, found) ↦
      rw (found, save_run)
        (elim (Bool-cases (run_identity_ok run owner)) [
          | inr foreign ↦ rw foreign (refused persistence_error)
          | inl own ↦ elim (Bool-cases (owns_workspace run db)) [
            | inr lent ↦ rw (own, lent) (refused (duplicate_run run.task_id))
            | inl free ↦ rw (own, free) (insert_run-Saves run now db)
          ]
        ])
]

-- `save_run` either raises and writes nothing, or returns the run and adds it as the last row; an
-- active run is added only where its task has no active run. So at most one run of each task stays
-- active.
pub active_of-save_run :
    (run : AgentRun) (now : ℕ) (db : Db) (task_id : String)
    → active_of task_id db ≤ 1
    → Saves run now db (save_run run now db) × (active_of task_id (save_run run now db).1 ≤ 1)
unfolding save_run
active_of-save_run run now db task_id within = (
  save_run-Saves run now db,
  elim (Option-cases (find_task run.task_id db)) [
    | inl missing ↦ rw (missing, save_run) within
    | inr (owner, found) ↦
        rw (found, save_run) (active_of-save_checked run now db task_id owner within)
  ],
)
