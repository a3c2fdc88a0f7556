-- ===== src/Orchestration/Texts.antt =====
-- src/factory/orchestration/publication.py: the title and the body of a pull request.
use Prim.Native.Char.{Char}
use ai_factory_lab.Common.{
  ℕ, zero, suc, String, Bool, Option, none, some, List, [], ◌∷◌, ◌++◌, map, join, ◌==◌, string_eq,
  if◌then◌else◌,
}
use ai_factory_lab.Domain.Values.{gate_status_value, outcome_value}
use ai_factory_lab.Domain.Models.{
  TaskSource, QualityGate, FactoryTask, AgentRun, PullRequest, validation_outcome,
}

-- `"\n".join(lines)`
unfoldable pub join_lines : List String → String
join_lines [] = ""
join_lines (line ∷ []) = line
join_lines (line ∷ next ∷ rest) = join line (join "\n" (join_lines (next ∷ rest)))

-- `"".join(ch for ch in s if keeps(ch))`
unfoldable pub keep_chars : (Char → Bool) → String → String
keep_chars keeps String.[] = ""
keep_chars keeps (String.◌∷◌ c s) =
    let rest = keep_chars keeps s in if keeps c then String.◌∷◌ c rest else rest

-- `s[:n]`
unfoldable pub take_text : ℕ → String → String
take_text zero s = ""
take_text (suc n) String.[] = ""
take_text (suc n) (String.◌∷◌ c s) = String.◌∷◌ c (take_text n s)

-- Python's `str.strip` and `str.isprintable` on one character, and a source's display reference.
pub record TextService : Type 0 where
  pub strip : String → String
  pub is_printable : Char → Bool
  pub external_ref : TaskSource → String

module _ (s : TextService) where
  -- `_bounded_title`
  unfoldable pub bounded_title : String → String
  unfolding keep_chars take_text
  bounded_title title =
      let cleaned = s.strip (keep_chars s.is_printable title) in
      if cleaned == "" then "factory change" else take_text 200 cleaned

  unfoldable pub source_lines : Option TaskSource → List String
  source_lines none = []
  source_lines (some source) = join "- source issue: `" (join (s.external_ref source) "`") ∷ []

  unfoldable pub gate_line : QualityGate → String
  unfolding gate_status_value
  gate_line gate = join "- `" (
      join gate.name (
        join "`: " (
          join (gate_status_value gate.status)
            (if gate.required then " (required)" else " (optional)"))))

  unfoldable pub gate_lines : List QualityGate → List String
  unfolding gate_line
  gate_lines [] = "Quality gates: none configured." ∷ []
  gate_lines (gate ∷ gates) = "Quality gates:" ∷ map gate_line (gate ∷ gates)

  -- `build_pull_request_body`
  unfoldable pub build_pull_request_body : FactoryTask → AgentRun → String
  unfolding join_lines source_lines gate_lines outcome_value
  build_pull_request_body task run = join_lines (
      "Automated publication by AI Factory Lab."
        ∷ ""
        ∷ "This pull request awaits a mandatory human review. The factory never merges."
        ∷ ""
        ∷ join "- task id: `" (join task.task_id "`")
        ∷ join "- run id: `" (join run.run_id "`")
        ∷ source_lines task.source
      ++ join "- validation: `" (join (outcome_value (validation_outcome run)) "`")
        ∷ ""
        ∷ gate_lines run.gates)

  -- `pull_request.title or task.title`
  unfoldable pub or_text : String → String → String
  or_text first second = if first == "" then second else first

  -- `_with_factory_metadata`
  unfoldable pub with_factory_metadata :
      PullRequest → FactoryTask → AgentRun → String → String → PullRequest
  unfolding or_text bounded_title build_pull_request_body
  with_factory_metadata pr task run base_branch commit_sha = record pr {
    base_branch = or_text pr.base_branch base_branch;
    title = bounded_title (or_text pr.title task.title);
    body = build_pull_request_body task run;
    task_id = some task.task_id;
    run_id = some run.run_id;
    commit_sha = some commit_sha;
  }
