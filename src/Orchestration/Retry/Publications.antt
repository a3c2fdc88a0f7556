-- ===== src/Orchestration/Retry/Publications.antt =====
-- When `is_publication_retry` of src/factory/orchestration/recovery.py holds, field by field.
use ai_factory_lab.Common.{
  String, ◌≡◌, sym, refl, subst, Bool, true, false, Option, none, some, arith, join, is_blank, ◌&&◌,
  string_eq, option_eq,
}
use ai_factory_lab.Domain.Enums.{
  TaskStatus, RunStatus, ValidationOutcome, task_status_eq, run_status_eq, validation_outcome_eq,
}
use ai_factory_lab.Domain.Models.{Workspace, FactoryTask, AgentRun, validation_outcome}
use ai_factory_lab.Orchestration.Recovery.{
  publication_reason, has_revision, publication_workspace, is_publication_retry,
}

-- The task was blocked by the publication of its newest run, which succeeded with all gates green, at
-- a revision and in a workspace of the task's own project and repository.
pub record IsBlockedPublication (task : FactoryTask) (latest : Option AgentRun) : Type 0 where
  pub run : AgentRun
  pub workspace : Workspace
  pub revision : String
  pub newest : latest ≡ some run
  pub blocked : task.status ≡ TaskStatus.blocked
  pub own : run.task_id ≡ task.task_id
  pub succeeded : run.status ≡ RunStatus.succeeded
  pub green : validation_outcome run ≡ ValidationOutcome.ready_for_next_phase
  pub validated : run.validated_revision ≡ some revision
  pub named : is_blank revision ≡ false
  pub project : run.project_id ≡ task.project_id
  pub placed : run.workspace ≡ some workspace
  pub repository : workspace.repository_slug ≡ task.target_repository
  pub reason :
      task.blocked_reason
      ≡ some (
          join "publication failed: run "
            (join run.run_id (join ", workspace " workspace.workspace_id)))

both : (a b : Bool) → (a && b) ≡ true → (a ≡ true) × (b ≡ true)
both a b h = (ground (arith, h), ground (arith, h))

together : {a b : Bool} → a ≡ true → b ≡ true → (a && b) ≡ true
together a b = rw (a, b) refl

module _ (task : FactoryTask) where
  retry_revision :
      (revision : Option String)
      → has_revision revision ≡ true
      → (r : String) × (revision ≡ some r) × (is_blank r ≡ false)
  unfolding has_revision
  retry_revision none h = cc
  retry_revision (some r) h = (r, refl, ground (arith, h))

  retry_workspace :
      (run : AgentRun) (workspace : Option Workspace)
      → publication_workspace task run workspace ≡ true
      → (w : Workspace) × (workspace ≡ some w)
        × (w.repository_slug ≡ task.target_repository)
        × (task.blocked_reason
            ≡ some (
                join "publication failed: run "
                  (join run.run_id (join ", workspace " w.workspace_id))))
  unfolding publication_workspace publication_reason
  retry_workspace run none h = cc
  retry_workspace run (some w) h = (
    w,
    refl,
    (string_eq.beq_iff w.repository_slug task.target_repository).0 (ground (arith, h)),
    (option_eq.beq_iff task.blocked_reason (some (publication_reason run.run_id w.workspace_id))).0
        (ground (arith, h)),
  )

  -- `is_publication_retry` accepts nothing else.
  pub retry-IsBlockedPublication :
      (latest : Option AgentRun)
      → is_publication_retry task latest ≡ true
      → IsBlockedPublication task latest
  unfolding is_publication_retry
  retry-IsBlockedPublication none h = cc
  retry-IsBlockedPublication (some run) h =
      let (h5, kept) = both _ _ h in
      let (h4, project) = both _ _ h5 in
      let (h3, revised) = both _ _ h4 in
      let (h2, green) = both _ _ h3 in
      let (h1, succeeded) = both _ _ h2 in
      let (blocked, own) = both _ _ h1 in
      let (revision, validated, named) = retry_revision run.validated_revision revised in
      let (workspace, placed, repository, reason) = retry_workspace run run.workspace kept in
      record {
        run = run;
        workspace = workspace;
        revision = revision;
        newest = refl;
        blocked = (task_status_eq.beq_iff task.status TaskStatus.blocked).0 blocked;
        own = (string_eq.beq_iff run.task_id task.task_id).0 own;
        succeeded = (run_status_eq.beq_iff run.status RunStatus.succeeded).0 succeeded;
        green =
            (validation_outcome_eq.beq_iff (validation_outcome run)
                ValidationOutcome.ready_for_next_phase).0
              green;
        validated = validated;
        named = named;
        project = (string_eq.beq_iff run.project_id task.project_id).0 project;
        placed = placed;
        repository = repository;
        reason = reason;
      }

  revision_retry :
      {revision : Option String} (r : String)
      → revision ≡ some r
      → is_blank r ≡ false
      → has_revision revision ≡ true
  unfolding has_revision
  revision_retry r validated named = rw (validated, has_revision) (rw named refl)

  workspace_retry :
      (run : AgentRun) {workspace : Option Workspace} (w : Workspace)
      → workspace ≡ some w
      → w.repository_slug ≡ task.target_repository
      → task.blocked_reason ≡ some (publication_reason run.run_id w.workspace_id)
      → publication_workspace task run workspace ≡ true
  unfolding publication_workspace
  workspace_retry run w placed repository reason =
      rw (placed, publication_workspace)
        (together ((string_eq.beq_iff w.repository_slug task.target_repository).1 repository) (
          (option_eq.beq_iff task.blocked_reason
              (some (publication_reason run.run_id w.workspace_id))).1
            reason))

  -- And it accepts that.
  pub IsBlockedPublication-retry :
      {latest : Option AgentRun}
      → IsBlockedPublication task latest
      → is_publication_retry task latest ≡ true
  unfolding is_publication_retry publication_reason
  IsBlockedPublication-retry {latest} b =
      subst (λ l. is_publication_retry task l ≡ true) (sym b.newest)
        (together
          (together
            (together
              (together
                (together
                  (together ((task_status_eq.beq_iff task.status TaskStatus.blocked).1 b.blocked)
                    ((string_eq.beq_iff b.run.task_id task.task_id).1 b.own))
                  ((run_status_eq.beq_iff b.run.status RunStatus.succeeded).1 b.succeeded))
                ((validation_outcome_eq.beq_iff (validation_outcome b.run)
                    ValidationOutcome.ready_for_next_phase).1
                  b.green))
              (revision_retry b.revision b.validated b.named))
            ((string_eq.beq_iff b.run.project_id task.project_id).1 b.project))
          (workspace_retry b.run b.workspace b.placed b.repository b.reason))
