-- ===== src/Orchestration/Sprint/Planned.antt =====
-- What `authorize` of src/factory/orchestration/sprint.py keeps of the stored sprints.
use ai_factory_lab.Common.{ℕ, suc, String, List, [], ◌∷◌}
use ai_factory_lab.Domain.Sprints.{SprintStep, SprintManifest}
use ai_factory_lab.Store.{Db}
use ai_factory_lab.Store.Sprints.{authorize}
use ai_factory_lab.Exec.{transact}
use ai_factory_lab.Exec.Keeps.{Keeps, keeps_rules, Keeps-transact, Keeps-bind, Keeps-if, Keeps-pure}
use ai_factory_lab.Orchestration.Sprint.Ports.{SprintService, item_key}
use ai_factory_lab.Orchestration.Sprint.Plan.{
  SprintPlanRow, PlanScope, plan_from, plan_steps, plan, record_rejections, authorize_planned,
  authorize_first, authorize_sprint,
}
use ai_factory_lab.Orchestration.Sprint.Kept.{IsSprintStable}

module _ {P : Db → Type 0} (stable : IsSprintStable P) (s : SprintService) where
  plan_from-Keeps :
      (scope : PlanScope) (seen : List String) (position : ℕ) (steps : List SprintStep)
      → Keeps P (plan_from s scope seen position steps)
  unfolding plan_from
  plan_from-Keeps scope seen position [] = search keeps_rules
  plan_from-Keeps scope seen position (step ∷ steps) = Keeps-bind _ _ (search keeps_rules) (λ reply.
      Keeps-bind _ _ (search keeps_rules) (λ actual.
        Keeps-bind _ _ (plan_from-Keeps scope (item_key step.item ∷ seen) (suc position) steps)
          (λ rest. Keeps-pure _)))

  plan_steps-Keeps :
      (manifest : SprintManifest) (steps : List SprintStep) → Keeps P (plan_steps s manifest steps)
  unfolding plan_steps
  plan_steps-Keeps manifest [] = search keeps_rules
  plan_steps-Keeps manifest (step ∷ steps) = search (keeps_rules, plan_from-Keeps)

  record_rejections-Keeps :
      (steps : List SprintStep) (rows : List SprintPlanRow)
      → Keeps P (record_rejections s steps rows)
  unfolding record_rejections
  record_rejections-Keeps (step ∷ steps) (row ∷ rows) =
      let later = record_rejections-Keeps steps rows in
      Keeps-if _ _ _
        (Keeps-bind _ _ (search keeps_rules)
          (λ reply. Keeps-bind _ _ (search keeps_rules) (λ _. later)))
        later
  record_rejections-Keeps (step ∷ steps) [] = search keeps_rules
  record_rejections-Keeps [] rows = search keeps_rules

  authorized-Keeps : (manifest : SprintManifest) → Keeps P (transact (authorize manifest))
  authorized-Keeps manifest = Keeps-transact _ (λ db. stable.authorized manifest db)

  authorize_planned-Keeps : (manifest : SprintManifest) → Keeps P (authorize_planned s manifest)
  unfolding authorize_planned plan
  authorize_planned-Keeps manifest =
      search (keeps_rules, plan_steps-Keeps, record_rejections-Keeps, authorized-Keeps) depth 10

  authorize_first-Keeps :
      (manifest : SprintManifest) (steps : List SprintStep)
      → Keeps P (authorize_first s manifest steps)
  unfolding authorize_first
  authorize_first-Keeps manifest [] = search keeps_rules
  authorize_first-Keeps manifest (step ∷ steps) =
      search (keeps_rules, authorized-Keeps, authorize_planned-Keeps) depth 8

  pub authorize_sprint-Keeps : (manifest : SprintManifest) → Keeps P (authorize_sprint s manifest)
  unfolding authorize_sprint
  authorize_sprint-Keeps manifest = search (keeps_rules, authorize_first-Keeps)
