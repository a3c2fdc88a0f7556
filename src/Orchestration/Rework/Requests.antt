-- ===== src/Orchestration/Rework/Requests.antt =====
-- What a request of src/factory/orchestration/rework.py comes to.
use ai_factory_lab.Common.{
  ℕ, String, ◌≡◌, refl, false, Option, none, some, List, ◌==◌, ◌⊎◌, ◌&&◌, inl, inr, Option-cases,
  Bool-cases, subst,
}
use ai_factory_lab.Domain.Enums.{TaskStatus, TaskKind, task_status_eq, task_kind_eq}
use ai_factory_lab.Domain.Models.{
  Workspace, FactoryTask, AgentRun, PullRequest, PullRequestState, open_state,
}
use ai_factory_lab.Domain.Errors.{ok, err, or_raise, rework_not_allowed}
use ai_factory_lab.Store.{Db, find_task}
use ai_factory_lab.Store.Tasks.{request_rework, is_reviewable, read_back, set_status}
use ai_factory_lab.Store.Tasks.Writes.{find_task-write_self}
use ai_factory_lab.Store.Stable.{KeptByRequest}
use ai_factory_lab.Store.Stable.Audited.{request_rework-IsAudited}
use ai_factory_lab.Store.Tasks.Audit.{IsAudited}
use ai_factory_lab.Exec.{Ports, World, Exec, transact, raise, ◌>>=◌}
use ai_factory_lab.Exec.Keeps.{Keeps, keeps_rules, Keeps-transact, Keeps-bind}
use ai_factory_lab.Exec.Ensures.{
  Ensures, Holds, ensures_rules, Ensures-then, Ensures-bind, Ensures-raise, Ensures_result,
}
use ai_factory_lab.Orchestration.Transitions.{require_task}
use ai_factory_lab.Orchestration.Transitions.Arrived.{Arrived, find_task-named, require_task-named}
use ai_factory_lab.Orchestration.Transitions.Branches.{require_task-Keeps}
use ai_factory_lab.Orchestration.Rework.{
  ReworkService, sanitize_feedback, request, review_newest, review, if_open, record_request,
}

module _ (task_id run_id feedback : String) (now : ℕ) (uid : String) (db : Db) where
  request_rework-Arrived :
      Holds
        (Arrived task_id TaskStatus.changes_requested)
        (request_rework task_id run_id feedback now uid db).0
  unfolding request_rework
  request_rework-Arrived = elim (Option-cases (find_task task_id db)) [
    | inl missing ↦ rw (missing, request_rework) tt
    | inr (task, stored) ↦ elim (Bool-cases (task.status == TaskStatus.waiting_human)) [
      | inr other ↦ rw (stored, request_rework) (rw other tt)
      | inl here ↦ elim (Bool-cases (is_reviewable run_id db)) [
        | inr taken ↦ rw (stored, request_rework) (rw (here, taken) tt)
        | inl fit ↦
            rw (stored, request_rework)
              (rw (here, fit)
                (unfold read_back find_task in
                  rw
                    (
                      read_back,
                      find_task-write_self task_id TaskStatus.waiting_human
                          TaskStatus.changes_requested now uid db stored
                          ((task_status_eq.beq_iff task.status TaskStatus.waiting_human).0 here),
                    )
                    (unfold set_status in
                      record { named = find_task-named task_id db stored; status = refl })))
      ]
    ]
  ]

module _ {P : Db → Type 0} (requested : KeptByRequest P) (p : Ports) (s : ReworkService) where
  record_request-Keeps :
      (task : FactoryTask) (run : AgentRun) (feedback : String)
      → Keeps P (record_request p task run feedback)
  unfolding record_request
  record_request-Keeps task run feedback = Keeps-bind _ _ (search keeps_rules) (λ now.
      Keeps-bind _ _ (search keeps_rules)
        (λ uid. Keeps-transact _ (λ db. requested task.task_id run.run_id feedback now uid db)))

  if_open-Keeps :
      (task : FactoryTask) (run : AgentRun) (feedback : String) (state : Option PullRequestState)
      → Keeps P (if_open p task run feedback state)
  unfolding if_open
  if_open-Keeps task run feedback (some open_state) = record_request-Keeps task run feedback
  if_open-Keeps task run feedback _ = search keeps_rules

  review-Keeps :
      (task : FactoryTask) (feedback : String) (runs : List AgentRun) (run : AgentRun)
      (workspace : Option Workspace) (pr : Option PullRequest)
      → Keeps P (review p s task feedback runs run workspace pr)
  unfolding review
  review-Keeps task feedback runs run (some workspace) (some pr) =
      search (keeps_rules, if_open-Keeps)
  review-Keeps task feedback runs run _ _ = search keeps_rules

  review_newest-Keeps :
      (task : FactoryTask) (feedback : String) (runs : List AgentRun) (run : Option AgentRun)
      → Keeps P (review_newest p s task feedback runs run)
  unfolding review_newest
  review_newest-Keeps task feedback runs none = search keeps_rules
  review_newest-Keeps task feedback runs (some run) = search (keeps_rules, review-Keeps)

  pub request-Keeps : (task_id raw : String) → Keeps P (request p s task_id raw)
  unfolding request
  request-Keeps task_id raw = search (keeps_rules, require_task-Keeps, review_newest-Keeps) depth 8

-- A rework request, granted or refused, keeps each task's history leading from the status it was
-- created in to its status.
pub request-IsAudited :
    (created : String → TaskStatus) (p : Ports) (s : ReworkService) (task_id raw : String)
    (w : World)
    → IsAudited created w.db
    → IsAudited created (request p s task_id raw w).1.db
request-IsAudited created p s task_id raw w audited =
    (request-Keeps
        (λ id run_id feedback now uid db.
          request_rework-IsAudited id run_id feedback now uid db {created = created})
        p s task_id raw).at
      w audited

module _ (p : Ports) (s : ReworkService) (task_id : String) where
  abbrev Requested : Exec FactoryTask → Type 0
  Requested = Ensures (Arrived task_id TaskStatus.changes_requested)

  record_request-Requested :
      (task : FactoryTask) (run : AgentRun) (feedback : String)
      → task.task_id ≡ task_id
      → Requested (record_request p task run feedback)
  unfolding record_request transact
  record_request-Requested task run feedback named = Ensures-then _ _ (λ now.
      Ensures-then _ _ (λ uid. record {
        at = λ w.
            subst
              (λ id.
                Holds (Arrived id TaskStatus.changes_requested)
                  (request_rework task.task_id run.run_id feedback now uid w.db).0)
              named (request_rework-Arrived task.task_id run.run_id feedback now uid w.db);
      }))

  if_open-Requested :
      (task : FactoryTask) (run : AgentRun) (feedback : String) (state : Option PullRequestState)
      → task.task_id ≡ task_id
      → Requested (if_open p task run feedback state)
  unfolding if_open
  if_open-Requested task run feedback (some open_state) named =
      record_request-Requested task run feedback named
  if_open-Requested task run feedback _ named = Ensures-raise rework_not_allowed

  review-Requested :
      (task : FactoryTask) (feedback : String) (runs : List AgentRun) (run : AgentRun)
      (workspace : Option Workspace) (pr : Option PullRequest)
      → task.task_id ≡ task_id
      → Requested (review p s task feedback runs run workspace pr)
  unfolding review
  review-Requested task feedback runs run (some workspace) (some pr) named =
      search (ensures_rules, if_open-Requested)
  review-Requested task feedback runs run _ _ named = Ensures-raise rework_not_allowed

  review_newest-Requested :
      (task : FactoryTask) (feedback : String) (runs : List AgentRun) (run : Option AgentRun)
      → task.task_id ≡ task_id
      → Requested (review_newest p s task feedback runs run)
  unfolding review_newest
  review_newest-Requested task feedback runs none named = Ensures-raise rework_not_allowed
  review_newest-Requested task feedback runs (some run) named =
      search (ensures_rules, review-Requested)

  request-Requested : (raw : String) → Requested (request p s task_id raw)
  unfolding request
  request-Requested raw = Ensures-then _ _ (λ feedback.
      Ensures-bind (require_task task_id) _ (require_task-named p task_id TaskStatus.running)
        (λ task named. search (ensures_rules, review_newest-Requested)))

-- A rework request that is granted returns the requested task, in CHANGES_REQUESTED.
pub request-Arrived :
    (p : Ports) (s : ReworkService) (task_id raw : String) (w : World) {after : FactoryTask}
    → (request p s task_id raw w).0 ≡ ok after
    → Arrived task_id TaskStatus.changes_requested after
request-Arrived p s task_id raw w returned =
    Ensures_result (request p s task_id raw) (request-Requested p s task_id raw) w returned

-- A request with unsafe feedback, and a request about a task that is not a code task awaiting its
-- review, are refused and write nothing.
pub request-refused :
    (p : Ports) (s : ReworkService) (task_id raw : String) (w : World) {task : FactoryTask}
    → find_task task_id w.db ≡ some task
    → (sanitize_feedback s raw ≡ err rework_not_allowed)
      ⊎ ((feedback : String) × (sanitize_feedback s raw ≡ ok feedback)
          × ((task.status == TaskStatus.waiting_human && task.kind == TaskKind.code) ≡ false))
    → request p s task_id raw w ≡ (err rework_not_allowed, w)
unfolding request require_task raise ◌>>=◌
request-refused p s task_id raw w {task} found (inl unsafe) = rw unsafe
request-refused p s task_id raw w {task} found (inr (feedback, safe, unfit)) = rw safe (
    rw (found, or_raise)
      (elim (Bool-cases (task.status == TaskStatus.waiting_human)) [
        | inr other ↦ rw other
        | inl here ↦ rw here (rw (rw here at unfit))
      ]))
