-- ===== src/Tests/Arriving.antt =====
-- Issues that come in, and a run's gates in the database.
use ai_factory_lab.Common.{
  suc, ◌==◌, nat_eq, if◌then◌else◌, String, ◌+◌, ◌≡◌, refl, true, false, none, some, List, [], ◌∷◌,
}
use ai_factory_lab.Domain.Enums.{TaskStatus, QualityGateStatus}
use ai_factory_lab.Domain.Models.{FactoryTask, QualityGate}
use ai_factory_lab.Domain.Errors.{ok}
use ai_factory_lab.Store.Runs.Codec.{
  Json, text, array, gate_items, encode_gates, decode_gates, decode_gates-encode_gates,
}
use ai_factory_lab.Orchestration.Intake.{IntakeService, IntakeSummary, intake}
use ai_factory_lab.Orchestration.Intake.Once.{intake-counted, intake_again}
use ai_factory_lab.Tests.Sample.{task, world}

abbrev issue : FactoryTask
issue = record (task "t3" TaskStatus.ready) {
  source = some (record { provider = "github"; repository_slug = "acme/site"; issue_number = 3 });
}

-- A source that lists a new issue and a task without a source.
abbrev source : IntakeService
source = record {
  list_open_tasks = λ n repository. ok (issue ∷ task "t4" TaskStatus.ready ∷ []);
  link_allows = λ t. true;
}

intake-counted_example :
    let w = world TaskStatus.ready [] in
    (summary : IntakeSummary) × ((intake source "acme/site" w).0 ≡ ok summary)
    × (summary.discovered ≡ 2)
    × (summary.created + summary.existing + summary.errors ≡ summary.discovered)
intake-counted_example = intake-counted source "acme/site" (world TaskStatus.ready []) refl

-- A source that lists one issue, each time as a task with an identifier of its own.
abbrev relisting : IntakeService
relisting = record {
  list_open_tasks =
      λ n repository. ok (record issue { task_id = if n == 3 then "t3" else "t5" } ∷ []);
  link_allows = λ t. true;
}

intake_again_example :
    let after = (intake relisting "acme/site" (world TaskStatus.ready [])).1 in
    intake relisting "acme/site" after ≡ (
      ok (record { discovered = 1; created = 0; existing = 1; errors = 0 }),
      record after { tick = suc after.tick },
    )
unfolding intake ai_factory_lab.Exec.◌>>=◌ ai_factory_lab.Orchestration.Intake.intake_all
    ai_factory_lab.Orchestration.Intake.intake_sourced ai_factory_lab.Store.Tasks.find_by_source
    ai_factory_lab.Orchestration.Intake.intake_new ai_factory_lab.Exec.attempt
    ai_factory_lab.Store.Tasks.save_task ai_factory_lab.Orchestration.Intake.add_counts
intake_again_example =
    intake_again relisting "acme/site" (world TaskStatus.ready [])
      {first = record { discovered = 1; created = 1; existing = 0; errors = 0 }} refl refl refl refl
      refl

-- The first pass creates one task and refuses the other.
first_pass :
    (intake source "acme/site" (world TaskStatus.ready [])).0
    ≡ ok (record { discovered = 2; created = 1; existing = 0; errors = 1 })
unfolding intake ai_factory_lab.Exec.◌>>=◌ ai_factory_lab.Orchestration.Intake.intake_all
    ai_factory_lab.Orchestration.Intake.intake_sourced ai_factory_lab.Store.Tasks.find_by_source
    ai_factory_lab.Orchestration.Intake.intake_new ai_factory_lab.Exec.attempt
    ai_factory_lab.Store.Tasks.save_task ai_factory_lab.Orchestration.Intake.add_counts
first_pass = refl

abbrev gates : List QualityGate
gates =
    record { name = "tests"; status = QualityGateStatus.passed; detail = none; required = true }
    ∷ record {
      name = "lint";
      status = QualityGateStatus.failed;
      detail = some "exit_code=1";
      required = false;
    }
    ∷ []

-- `str` on texts, and a `json` that knows one value.
abbrev str : Json → String
str (text s) = s
str _ = ""

decode_gates-encode_gates_example :
    decode_gates str (λ s. some (array (gate_items gates))) (encode_gates (λ j. "gates") gates)
    ≡ ok gates
decode_gates-encode_gates_example =
    decode_gates-encode_gates str (λ j. "gates") (λ s. some (array (gate_items gates))) gates
      (λ s. refl) refl
