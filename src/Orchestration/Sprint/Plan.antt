-- ===== src/Orchestration/Sprint/Plan.antt =====
-- src/factory/orchestration/sprint.py: the plan of a sprint and its authorisation.
use ai_factory_lab.Common.{
  ℕ, suc, String, Bool, true, false, not, ◌&&◌, ◌||◌, Option, none, some, List, [], ◌∷◌, ◌++◌, ◌==◌,
  string_eq, nat_eq, if◌then◌else◌, is_empty, any, all, contains, is_none,
}
use ai_factory_lab.Domain.Enums.{TaskStatus}
use ai_factory_lab.Domain.Projects.{ProjectRegistry, resolve}
use ai_factory_lab.Domain.Sprints.{WorkItem, SprintStep, SprintManifest, same_item}
use ai_factory_lab.Domain.Errors.{ok, err, value_error}
use ai_factory_lab.Store.{Db, SprintRow, busy_statuses}
use ai_factory_lab.Store.Tasks.{list_status}
use ai_factory_lab.Store.Sprints.{authorize, current_for_project, is_live_state}
use ai_factory_lab.Exec.{Exec, pure, raise, lift, query, ask, transact, ◌>>=◌, ◌>>◌}
use ai_factory_lab.Orchestration.Sprint.Ports.{SprintService, item_key}

pub record SprintPlanRow : Type 0 where
  pub position : ℕ
  pub external_id : String
  pub eligible : Bool
  pub blockers : List String

-- `draft`
unfoldable pub draft_steps : SprintService → List (String × List String) → Exec (List SprintStep)
draft_steps s [] = pure []
draft_steps s (entry ∷ entries) =
    let later = draft_steps s entries in
    ask (λ n. s.get_item n entry.0) >>= λ reply. lift reply >>= λ item.
    later >>= λ rest. pure (record { item = item; dependencies = entry.1 } ∷ rest)

-- What holds of the whole plan.
pub record PlanScope : Type 0 where
  pub live_other : Bool
  pub pending_human : Bool
  pub busy : Bool
  pub first : WorkItem

unfoldable pub is_live_other : SprintManifest → Option SprintRow → Bool
is_live_other manifest none = false
is_live_other manifest (some row) =
    is_live_state row.state && not (row.manifest.sprint_id == manifest.sprint_id)

unfoldable pub has_task_in : String → TaskStatus → Db → Bool
has_task_in project_id status db =
    any (λ task. task.project_id == project_id) (list_status status db)

unfoldable pub plan_scope : SprintManifest → WorkItem → Db → PlanScope
unfolding is_live_other has_task_in
plan_scope manifest first db = record {
  live_other = is_live_other manifest (current_for_project first.project_id db);
  pending_human = has_task_in first.project_id TaskStatus.waiting_human db;
  busy = any (λ status. has_task_in first.project_id status db) busy_statuses;
  first = first;
}

unfoldable pub blocker : Bool → String → List String
blocker b name = if b then name ∷ [] else []

unfoldable pub is_rejected : WorkItem → Option ProjectRegistry → Bool
is_rejected item none = false
is_rejected item (some registry) =
    elim (resolve registry item.project_id (some item.target_repository)) [
      | ok profile ↦ false
      | err e ↦ true
    ]

unfoldable pub is_outside : WorkItem → WorkItem → Bool
is_outside first item = not (
    item.project_id == first.project_id
    && item.provider == first.provider
    && item.target_repository == first.target_repository)

-- The blockers of one step, in the order of the source.
unfoldable pub step_blockers :
    SprintService → PlanScope → List String → ℕ → SprintStep → WorkItem → List String
unfolding blocker is_rejected is_outside
step_blockers s scope seen position step actual =
    blocker (contains seen (item_key step.item)) "duplicate_work_item"
    ++ blocker (is_none s.registry && is_outside scope.first step.item) "outside_scope"
    ++ blocker (is_rejected step.item s.registry) "project_routing_rejected"
    ++ blocker (any (λ d. not (contains seen d)) step.dependencies) "dependency_not_preceding"
    ++ blocker scope.live_other "another_sprint_active"
    ++ blocker scope.pending_human "pending_human_gate"
    ++ blocker scope.busy "wip_busy"
    ++ blocker (not step.item.eligible || not step.item.dependencies_satisfied) "source_ineligible"
    ++ blocker (not (same_item actual step.item)) "snapshot_changed"
    ++ blocker (not (position == 0)) "ordered_predecessor_waiting"

unfoldable pub plan_row : ℕ → SprintStep → List String → SprintPlanRow
plan_row position step blockers = record {
  position = position;
  external_id = step.item.external_id;
  eligible = is_empty blockers;
  blockers = blockers;
}

-- The loop of `plan`; `seen` are the keys of the steps before.
unfoldable pub plan_from :
    SprintService → PlanScope → List String → ℕ → List SprintStep → Exec (List SprintPlanRow)
unfolding plan_row
plan_from s scope seen position [] = pure []
plan_from s scope seen position (step ∷ steps) =
    let later = plan_from s scope (item_key step.item ∷ seen) (suc position) steps in
    ask (λ n. s.get_item n step.item.external_id) >>= λ reply. lift reply >>= λ actual.
    later >>= λ rest.
    pure (plan_row position step (step_blockers s scope seen position step actual) ∷ rest)

-- `plan`
unfoldable pub plan_steps :
    SprintService → SprintManifest → List SprintStep → Exec (List SprintPlanRow)
plan_steps s manifest [] = raise value_error
plan_steps s manifest (step ∷ steps) = do
  scope ← query (plan_scope manifest step.item)
  plan_from s scope [] 0 (step ∷ steps)

unfoldable pub plan : SprintService → SprintManifest → Exec (List SprintPlanRow)
plan s manifest = plan_steps s manifest manifest.steps

unfoldable pub one_project : List SprintStep → Bool
one_project [] = false
one_project (step ∷ steps) = all (λ other. other.item.project_id == step.item.project_id) steps

unfoldable pub record_rejections :
    SprintService → List SprintStep → List SprintPlanRow → Exec (Unit {0})
record_rejections s (step ∷ steps) (row ∷ rows) =
    let later = record_rejections s steps rows in
    if contains row.blockers "project_routing_rejected"
    then (ask (λ n. s.record_rejection n step.item "PROJECT_ROUTING_REJECTED") >>= λ reply.
        lift reply >>= λ _. later)
    else later
record_rejections s _ _ = pure tt

unfoldable pub is_blocked : SprintPlanRow → Bool
is_blocked row = any (λ blocker. not (blocker == "ordered_predecessor_waiting")) row.blockers

unfoldable pub is_same_sprint : SprintManifest → Option SprintRow → Bool
is_same_sprint manifest none = false
is_same_sprint manifest (some row) = row.manifest.sprint_id == manifest.sprint_id

unfoldable pub authorize_planned : SprintService → SprintManifest → Exec (Unit {0})
authorize_planned s manifest = do
  rows ← plan s manifest
  record_rejections s manifest.steps rows
  if any is_blocked rows then raise value_error else transact (authorize manifest)

unfoldable pub authorize_first : SprintService → SprintManifest → List SprintStep → Exec (Unit {0})
authorize_first s manifest [] = raise value_error
authorize_first s manifest (step ∷ steps) = do
  row ← query (current_for_project step.item.project_id)
  if is_same_sprint manifest row
      then transact (authorize manifest)
      else authorize_planned s manifest

-- `SprintService.authorize`
unfoldable pub authorize_sprint : SprintService → SprintManifest → Exec (Unit {0})
authorize_sprint s manifest =
    if not (one_project manifest.steps)
    then raise value_error
    else authorize_first s manifest manifest.steps
