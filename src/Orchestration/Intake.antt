-- ===== src/Orchestration/Intake.antt =====
-- src/factory/orchestration/intake.py: open issues become tasks, each once.
pub mod Once
use ai_factory_lab.Common.{
  ℕ, ◌+◌, String, Bool, Option, none, some, List, [], ◌∷◌, is_some, if◌then◌else◌, length,
}
use ai_factory_lab.Domain.Models.{TaskSource, FactoryTask}
use ai_factory_lab.Domain.Errors.{Result}
use ai_factory_lab.Store.{Db}
use ai_factory_lab.Store.Tasks.{find_by_source, save_task}
use ai_factory_lab.Exec.{Exec, pure, lift, query, ask, transact, ◌>>=◌, attempt}

-- The issue source, and the trigger's answer on a task, which intake does not change.
pub record IntakeService : Type 0 where
  pub list_open_tasks : ℕ → String → Result (List FactoryTask)
  pub link_allows : FactoryTask → Bool

pub record IntakeSummary : Type 0 where
  pub discovered : ℕ
  pub created : ℕ
  pub existing : ℕ
  pub errors : ℕ

-- What one issue adds to the counters of the loop.
abbrev pub counted_none : IntakeSummary
counted_none = record { discovered = 0; created = 0; existing = 0; errors = 0 }

abbrev pub counted_created : IntakeSummary
counted_created = record { discovered = 0; created = 1; existing = 0; errors = 0 }

abbrev pub counted_existing : IntakeSummary
counted_existing = record { discovered = 0; created = 0; existing = 1; errors = 0 }

abbrev pub counted_error : IntakeSummary
counted_error = record { discovered = 0; created = 0; existing = 0; errors = 1 }

unfoldable pub add_counts : IntakeSummary → IntakeSummary → IntakeSummary
add_counts a b = record {
  discovered = a.discovered + b.discovered;
  created = a.created + b.created;
  existing = a.existing + b.existing;
  errors = a.errors + b.errors;
}

module _ (s : IntakeService) where
  unfoldable pub intake_new : FactoryTask → Exec IntakeSummary
  intake_new task =
      attempt (transact (save_task (s.link_allows task) task)) (λ saved. pure counted_created)
        (λ e. pure counted_error)

  -- The body of the loop; any exception of `save` is one error.
  unfoldable pub intake_sourced : FactoryTask → Option TaskSource → Exec IntakeSummary
  intake_sourced task none = pure counted_error
  intake_sourced task (some source) = do
    found ← query (find_by_source source)
    if is_some found then pure counted_existing else intake_new task

  unfoldable pub intake_all : List FactoryTask → Exec IntakeSummary
  intake_all [] = pure counted_none
  intake_all (task ∷ tasks) =
      let later = intake_all tasks in
      intake_sourced task task.source >>= λ first. later >>= λ rest. pure (add_counts first rest)

  -- `intake`
  unfoldable pub intake : String → Exec IntakeSummary
  intake repository = do
    reply ← ask (λ n. s.list_open_tasks n repository)
    discovered ← lift reply
    counts ← intake_all discovered
    pure (record counts { discovered = length discovered })
