-- ===== src/Store/Stable/Lifecycles.antt =====
-- Every transition of src/factory/infrastructure/persistence/sqlite.py that a service makes is recorded
-- as an edge of src/factory/domain/task_lifecycle.py: the repository refines the graph.
use mathlib.Core.List.{append_assoc, append-nil}
use ai_factory_lab.Common.{
  ℕ, String, ◌≡◌, refl, sym, ap, subst, ◌∙◌, Bool, true, false, ◌&&◌, some, List, [], ◌∷◌, ◌++◌,
  ◌==◌, inl, inr, string_eq, arith, Bool-cases, all, select, select-append, ==_refl,
}
use ai_factory_lab.Domain.Enums.{TaskStatus}
use ai_factory_lab.Domain.Models.{FactoryTask, TaskTransition}
use ai_factory_lab.Domain.Lifecycle.{can_transition}
use ai_factory_lab.Store.{Db, find_task}
use ai_factory_lab.Store.Tasks.{apply, set_status, write_transition, record_transition}
use ai_factory_lab.Store.Tasks.Writes.{apply-atomic, find_task-write_self}
use ai_factory_lab.Store.Tasks.Audit.{find_task-write_ne, replay, replay-append}
use ai_factory_lab.Store.Stable.{IsStable}

-- The rows of one task.
abbrev pub rows_of : String → List TaskTransition → List TaskTransition
rows_of task_id = select (λ t. t.task_id == task_id)

-- What became of a task: it is stored, in the status that its added rows lead to, each of which
-- starts where the one before it ended.
pub record Advanced (added : List TaskTransition) (task_id : String) (status : TaskStatus) (db : Db)
    : Type 0 where
  pub after : FactoryTask
  pub stored : find_task task_id db ≡ some after
  pub path : replay status (rows_of task_id added) ≡ some after.status

-- An edge of the normal graph into a status that `enters` accepts.
abbrev pub is_edge_into : (TaskStatus → Bool) → TaskTransition → Bool
is_edge_into enters t = enters t.to_status && can_transition t.from_status t.to_status

-- `db` comes from `before` by added history rows, each of them an edge of the normal graph into a
-- status that `enters` accepts; and every task of `before` is stored in the status to which its own
-- added rows lead, one edge after the other.
pub record Refines (enters : TaskStatus → Bool) (before db : Db) : Type 0 where
  pub added : List TaskTransition
  pub appended : db.transitions ≡ before.transitions ++ added
  pub legal : all (is_edge_into enters) added ≡ true
  pub advanced :
      (task_id : String) (task : FactoryTask)
      → find_task task_id before ≡ some task
      → Advanced added task_id task.status db

all-append :
    {A : Type 0} (p : A → Bool) (xs : List A) (x : A)
    → all p xs ≡ true
    → p x ≡ true
    → all p (xs ++ x ∷ []) ≡ true
all-append p [] x h hx = rw hx refl
all-append p (y ∷ xs) x h hx = ground (arith, h, hx, all-append p xs x)

module _ (enters : TaskStatus → Bool) where
  pub Refines-refl : (db : Db) → Refines enters db db
  unfolding replay
  Refines-refl db = record {
    added = [];
    appended = sym (append-nil db.transitions);
    legal = refl;
    advanced = λ task_id task stored. record { after = task; stored = stored; path = refl };
  }

  frame-Refines :
      {before db db' : Db}
      → db'.tasks ≡ db.tasks
      → db'.transitions ≡ db.transitions
      → Refines enters before db
      → Refines enters before db'
  unfolding find_task
  frame-Refines tasks rows refines = record {
    added = refines.added;
    appended = rows ∙ refines.appended;
    legal = refines.legal;
    advanced = λ task_id task stored.
        let a = refines.advanced task_id task stored in
        record { after = a.after; stored = rw tasks a.stored; path = a.path };
  }

module _ (task_id : String) (from target : TaskStatus) (now : ℕ) (uid : String) (db : Db)
    {task : FactoryTask} (found : find_task task_id db ≡ some task)
    (expected : task.status ≡ from) where
  abbrev written : Db
  written = write_transition task_id from target now uid db

  abbrev new_row : TaskTransition
  new_row = record_transition uid task_id from target now

  module _ (added : List TaskTransition) where
    advance_self :
        (status : TaskStatus)
        → Advanced added task_id status db
        → Advanced (added ++ new_row ∷ []) task_id status written
    unfolding set_status record_transition
    advance_self status a = record {
      after = set_status target now task;
      stored = find_task-write_self task_id from target now uid db found expected;
      path =
          rw (select-append, ==_refl task_id)
            (replay-append status from (rows_of task_id added) new_row
              (a.path ∙ ap some (same_status a.stored)) refl);
    }
      where
        same_status : {row : FactoryTask} → find_task task_id db ≡ some row → row.status ≡ from
        same_status stored = ground (arith, stored, found, expected)

    write-Advanced :
        (j : String) (status : TaskStatus)
        → Advanced added j status db
        → Advanced (added ++ new_row ∷ []) j status written
    unfolding record_transition
    write-Advanced j status a = elim (Bool-cases (task_id == j)) [
      | inl same ↦
          subst
            (λ k. Advanced added k status db → Advanced (added ++ new_row ∷ []) k status written)
            ((string_eq.beq_iff task_id j).0 same) (advance_self status) a
      | inr other ↦ record {
        after = a.after;
        stored =
            find_task-write_ne task_id from target now uid db found expected j other ∙ a.stored;
        path = rw select-append (rw (other, append-nil (rows_of j added)) a.path);
      }
    ]

  write-Refines :
      {enters : TaskStatus → Bool} {before : Db}
      → enters target ≡ true
      → can_transition from target ≡ true
      → Refines enters before db
      → Refines enters before written
  unfolding write_transition record_transition
  write-Refines {enters} {before} entered edge refines = record {
    added = refines.added ++ new_row ∷ [];
    appended =
        ap (λ rows. rows ++ new_row ∷ []) refines.appended
        ∙ append_assoc before.transitions refines.added (new_row ∷ []);
    legal =
        all-append (is_edge_into enters) refines.added new_row refines.legal
          (rw (entered, edge) refl);
    advanced =
        λ j row stored. write-Advanced refines.added j row.status (refines.advanced j row stored);
  }

-- A normal transition that is applied is recorded as the edge that it is.
apply-Refines :
    {enters : TaskStatus → Bool} (max_claims : ℕ) (task_id : String) (from target : TaskStatus)
    (now : ℕ) (uid : String) (db : Db) {before : Db}
    → enters target ≡ true
    → can_transition from target ≡ true
    → Refines enters before db
    → Refines enters before (apply max_claims false task_id from target now uid db).1
apply-Refines max_claims task_id from target now uid db entered edge refines =
    elim (apply-atomic max_claims false task_id from target now uid db) [
      | inl (e, raised) ↦ rw raised refines
      | inr (task, applied) ↦ rw applied.result (
          write-Refines task_id from target now uid db applied.stored applied.expected entered edge
            refines)
    ]

pub Refines-IsStable :
    (enters : TaskStatus → Bool) (before : Db) → IsStable enters (Refines enters before)
Refines-IsStable enters before = record {
  applied = λ max_claims task_id from target now uid db.
      apply-Refines max_claims task_id from target now uid db;
  framed = λ db db' tasks rows. frame-Refines enters tasks rows;
}
