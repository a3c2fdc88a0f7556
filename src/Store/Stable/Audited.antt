-- ===== src/Store/Stable/Audited.antt =====
-- What `request_rework` of src/factory/infrastructure/persistence/sqlite.py writes, and the audit
-- trail as a property that every service keeps.
use ai_factory_lab.Common.{
  ℕ, String, Bool, ◌≡◌, refl, false, some, ◌==◌, ◌⊎◌, inl, inr, Option-cases, Bool-cases, ◌++◌, [],
  ◌∷◌,
}
use ai_factory_lab.Domain.Enums.{TaskStatus, task_status_eq}
use ai_factory_lab.Domain.Models.{FactoryTask}
use ai_factory_lab.Store.{Db, find_task}
use ai_factory_lab.Store.Tasks.{request_rework, is_reviewable, read_back, write_transition}
use ai_factory_lab.Store.Tasks.Audit.{IsAudited, frame-IsAudited, write-IsAudited, apply-IsAudited}
use ai_factory_lab.Store.Stable.{IsStable}

read_back-same : (task_id : String) (db : Db) → (read_back task_id db).1 ≡ db
unfolding read_back
read_back-same task_id db = elim (Option-cases (find_task task_id db)) [
  | inl missing ↦ rw (missing, read_back) refl
  | inr (task, stored) ↦ rw (stored, read_back) refl
]

module _ (task_id run_id feedback : String) (now : ℕ) (uid : String) (db : Db) where
  -- The write of a rework request: the task moves to CHANGES_REQUESTED, and the request is kept.
  abbrev pub rework_written : Db
  rework_written =
      record (write_transition task_id TaskStatus.waiting_human TaskStatus.changes_requested now uid
        db) {
          rework =
              db.rework
              ++ record {
                task_id = task_id;
                reviewed_run_id = run_id;
                feedback = feedback;
                requested_at = now;
              }
                ∷ [];
        }

  -- A rework request leaves the database as it was, or finds the task in WAITING_HUMAN and writes.
  pub request_rework-atomic :
      ((request_rework task_id run_id feedback now uid db).1 ≡ db)
      ⊎ ((task : FactoryTask) × (find_task task_id db ≡ some task)
          × (task.status ≡ TaskStatus.waiting_human)
          × ((request_rework task_id run_id feedback now uid db).1 ≡ rework_written))
  unfolding request_rework
  request_rework-atomic = elim (Option-cases (find_task task_id db)) [
    | inl missing ↦ inl (rw (missing, request_rework) refl)
    | inr (task, stored) ↦ elim (Bool-cases (task.status == TaskStatus.waiting_human)) [
      | inr other ↦ inl (rw (stored, request_rework) (rw other refl))
      | inl here ↦ elim (Bool-cases (is_reviewable run_id db)) [
        | inr taken ↦ inl (rw (stored, request_rework) (rw (here, taken) refl))
        | inl fit ↦ inr (
          task,
          stored,
          (task_status_eq.beq_iff task.status TaskStatus.waiting_human).0 here,
          rw (stored, request_rework) (rw (here, fit) (read_back-same task_id rework_written)),
        )
      ]
    ]
  ]

  pub request_rework-IsAudited :
      {created : String → TaskStatus}
      → IsAudited created db
      → IsAudited created (request_rework task_id run_id feedback now uid db).1
  request_rework-IsAudited {created} audited = elim request_rework-atomic [
    | inl same ↦ rw same audited
    | inr (task, stored, here, written) ↦ rw written (
        frame-IsAudited {created = created}
          {db = write_transition task_id TaskStatus.waiting_human TaskStatus.changes_requested now
            uid db}
          refl refl
          (write-IsAudited task_id TaskStatus.waiting_human TaskStatus.changes_requested now uid db
            stored here audited))
  ]

pub IsAudited-IsStable :
    (enters : TaskStatus → Bool) (created : String → TaskStatus)
    → IsStable enters (IsAudited created)
IsAudited-IsStable enters created = record {
  applied = λ max_claims task_id from target now uid db entered edge.
      apply-IsAudited max_claims false task_id from target now uid db;
  framed = λ db db' tasks rows. frame-IsAudited tasks rows;
}
