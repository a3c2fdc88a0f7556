-- ===== src/Orchestration/Sprint/Ports.antt =====
-- src/factory/orchestration/sprint.py: what the service asks, and `DependencyResolver`.
use ai_factory_lab.Common.{
  ℕ, String, Bool, true, false, not, Option, none, some, List, [], ◌∷◌, join, ◌==◌, string_eq,
  if◌then◌else◌,
}
use ai_factory_lab.Domain.Enums.{TaskStatus, task_status_eq}
use ai_factory_lab.Domain.Models.{FactoryTask}
use ai_factory_lab.Domain.Projects.{ProjectRegistry}
use ai_factory_lab.Domain.Sprints.{WorkItem, MaterializedIssue, SprintStep, SprintManifest}
use ai_factory_lab.Domain.Errors.{Result}
use ai_factory_lab.Store.Tasks.{find_by_source}
use ai_factory_lab.Exec.{Exec, pure, query, ask, ◌>>=◌}

-- The backlog's source, its links, the materialisation of an item and the feedback that has been
-- recorded, if that is configured.
pub record SprintService : Type 0 where
  pub get_item : ℕ → String → Result WorkItem
  pub get_issue : ℕ → String → String → Option MaterializedIssue
  pub materialize : ℕ → String → Result (Unit {0})
  pub record_rejection : ℕ → WorkItem → String → Result (Unit {0})
  pub is_completed : Option (ℕ → String → Bool)
  pub registry : Option ProjectRegistry

unfoldable pub task_of : Option MaterializedIssue → Exec (Option FactoryTask)
task_of none = pure none
task_of (some issue) = query (
    find_by_source (record {
      provider = "github";
      repository_slug = issue.repository_slug;
      issue_number = issue.number;
    }))

-- `_task_for`
unfoldable pub task_for : SprintService → WorkItem → Exec (Option FactoryTask)
task_for s item = do issue ← ask (λ n. s.get_issue n item.provider item.external_id); task_of issue

-- `steps[position]`
unfoldable pub step_at : ℕ → List SprintStep → Option SprintStep
step_at n [] = none
step_at ℕ.zero (step ∷ steps) = some step
step_at (ℕ.suc n) (step ∷ steps) = step_at n steps

-- `steps[:position]`
unfoldable pub steps_before : ℕ → List SprintStep → List SprintStep
steps_before ℕ.zero steps = []
steps_before (ℕ.suc n) [] = []
steps_before (ℕ.suc n) (step ∷ steps) = step ∷ steps_before n steps

unfoldable pub item_key : WorkItem → String
item_key item = join item.provider (join ":" item.external_id)

-- The dictionary `preceding`: a later step of the same key counts.
unfoldable pub named_item : String → List SprintStep → Option WorkItem
unfolding item_key
named_item key [] = none
named_item key (step ∷ steps) = elim (named_item key steps) [
  | some item ↦ some item
  | none ↦ if item_key step.item == key then some step.item else none
]

unfoldable pub is_task_done : Option FactoryTask → Bool
is_task_done none = false
is_task_done (some task) = task.status == TaskStatus.done

module _ (s : SprintService) where
  unfoldable pub dependency_done : Option WorkItem → Exec Bool
  dependency_done none = pure false
  dependency_done (some item) = do task ← task_for s item; pure (is_task_done task)

  unfoldable pub dependencies_done : List SprintStep → List String → Exec Bool
  dependencies_done preceding [] = pure true
  dependencies_done preceding (dependency ∷ rest) =
      let later = dependencies_done preceding rest in
      dependency_done (named_item dependency preceding) >>= λ done.
      if not done then pure false else later

  unfoldable pub step_complete : List SprintStep → Option SprintStep → Exec Bool
  step_complete preceding none = pure false
  step_complete preceding (some step) =
      if not step.item.dependencies_satisfied
      then pure false
      else dependencies_done preceding step.dependencies

  -- `DependencyResolver.complete`, at a position of the manifest
  unfoldable pub is_complete : SprintManifest → ℕ → Exec Bool
  is_complete manifest position =
      step_complete (steps_before position manifest.steps) (step_at position manifest.steps)
