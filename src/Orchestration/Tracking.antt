-- ===== src/Orchestration/Tracking.antt =====
-- src/factory/orchestration/tracking.py: validating a finished run in its workspace.
-- `Refresh` below drives the task from it.
pub mod Revision
pub mod Refresh
use Prim.Native.Char.{code}
use Prim.Native.String
use ai_factory_lab.Common.{
  ℕ, zero, suc, String, Bool, true, false, not, ◌&&◌, ◌||◌, Option, none, some, List, [], ◌∷◌, ◌++◌,
  map, ◌==◌, string_eq, nat_eq, option_eq, if◌then◌else◌, any, find, join, leb, starts_with,
}
use ai_factory_lab.Domain.Enums.{QualityGateStatus, TaskKind, task_kind_eq}
use ai_factory_lab.Domain.Models.{
  Workspace, FactoryTask, AgentRun, QualityGate, QualityGateSpec, TaskSource, required_green,
}
use ai_factory_lab.Domain.Projects.{ProjectRegistry, ProjectProfile, resolve}
use ai_factory_lab.Domain.Errors.{Error, Result, ok, err, value_error, is_factory_error}
use ai_factory_lab.Store.{find_task}
use ai_factory_lab.Exec.{Ports, Exec, pure, raise, lift, query, ask, ◌>>=◌}

-- The configuration of `RunTrackingService`, and `external_ref`, which prints a source's identity.
-- `has_pull_requests` tells whether it was given the pull request repository.
pub record TrackingService : Type 0 where
  pub gate_specs : List QualityGateSpec
  pub task_gate_specs : List (String × List QualityGateSpec)
  pub registry : Option ProjectRegistry
  pub has_pull_requests : Bool
  pub base_branch : String
  pub heartbeat_interval : ℕ
  pub external_ref : TaskSource → String

-- `Workspace.__eq__`
unfoldable pub workspace_eq : Workspace → Workspace → Bool
workspace_eq a b =
    a.workspace_id == b.workspace_id
    && a.repository_slug == b.repository_slug
    && a.branch == b.branch
    && a.path == b.path
    && a.kind == b.kind
    && a.created_at == b.created_at

unfoldable pub failed_gate : String → String → Bool → QualityGate
failed_gate name detail required = record {
  name = name;
  status = QualityGateStatus.failed;
  detail = some detail;
  required = required;
}

-- `_integrity_failure`
unfoldable pub integrity_failure : String → List QualityGate
unfolding failed_gate
integrity_failure detail = failed_gate "workspace_integrity" detail true ∷ []

specific_specs : List (String × List QualityGateSpec) → String → List QualityGateSpec
specific_specs [] ref = []
specific_specs ((r, specs) ∷ rest) ref = if r == ref then specs else specific_specs rest ref

-- `self._task_gate_specs.get(ref, ())` for a task with a source
unfoldable pub specs_of_task : TrackingService → Option FactoryTask → List QualityGateSpec
unfolding specific_specs
specs_of_task s none = []
specs_of_task s (some task) = elim task.source [
  | none ↦ []
  | some source ↦ specific_specs s.task_gate_specs (s.external_ref source)
]

unfoldable pub common_specs :
    TrackingService → AgentRun → Option FactoryTask → Result (List QualityGateSpec)
common_specs s run task = elim s.registry [
  | none ↦ ok s.gate_specs
  | some registry ↦ elim task [
    | none ↦ err value_error
    | some t ↦
        if not (run.project_id == t.project_id)
        then err value_error
        else elim (resolve registry t.project_id (some t.target_repository)) [
          | err e ↦ err e
          | ok profile ↦ ok profile.gates
        ]
  ]
]

-- `_specs_for`
unfoldable pub specs_for : TrackingService → AgentRun → Exec (List QualityGateSpec)
specs_for s run = do
  task ← query (find_task run.task_id)
  common ← lift (common_specs s run task)
  pure (common ++ specs_of_task s task)

-- `-?\d{1,3}`
digits_only : ℕ → String → Bool
digits_only n String.[] = not (n == 0) && leb n 3
digits_only n (String.◌∷◌ c s) = leb b'0' (code c) && leb (code c) b'9' && digits_only (suc n) s

signed_digits : String → Bool
signed_digits String.[] = false
signed_digits (String.◌∷◌ c s) =
    if code c == b'-' then digits_only 0 s else digits_only 0 (String.◌∷◌ c s)

drop_text : ℕ → String → String
drop_text zero s = s
drop_text (suc n) String.[] = String.[]
drop_text (suc n) (String.◌∷◌ c s) = drop_text n s

-- `re.fullmatch(r"(?:exit_code=-?\d{1,3}|timeout|spawn_error)", detail)`, over ASCII digits
unfoldable pub detail_allowed : String → Bool
unfolding digits_only signed_digits drop_text
detail_allowed detail =
    detail == "timeout"
    || detail == "spawn_error"
    || (starts_with "exit_code=" detail && signed_digits (drop_text 10 detail))

abbrev pub same_flag : Bool → Bool → Bool
same_flag true b = b
same_flag false b = not b

-- What `_run_gate` makes of a runner's result.
unfoldable pub gate_result : QualityGateSpec → QualityGate → QualityGate
gate_result spec result =
    if not (result.name == spec.name) || not (same_flag result.required spec.required)
    then failed_gate spec.name "runner_mismatch" spec.required
    else record {
      name = spec.name;
      status = result.status;
      detail = some (elim result.detail [
        | none ↦ "redacted"
        | some detail ↦ if detail_allowed detail then detail else "redacted"
      ]);
      required = spec.required;
    }

unfoldable pub gate_reply : QualityGateSpec → Result QualityGate → Result QualityGate
gate_reply spec (ok result) = ok (gate_result spec result)
gate_reply spec (err e) =
    if is_factory_error e then err e else ok (failed_gate spec.name "runner_error" spec.required)

unfoldable pub run_gates :
    (ℕ → QualityGateSpec → Workspace → Result QualityGate)
    → List QualityGateSpec
    → Workspace
    → Exec (List QualityGate)
run_gates runner [] workspace = pure []
run_gates runner (spec ∷ specs) workspace = do
  reply ← ask (λ n. runner n spec workspace)
  gate ← lift (gate_reply spec reply)
  rest ← run_gates runner specs workspace
  pure (gate ∷ rest)

unfoldable pub no_workspace_gate : QualityGateSpec → QualityGate
no_workspace_gate spec = failed_gate spec.name "no_workspace" spec.required

-- Without a workspace or a runner every configured gate fails.
unfoldable pub evaluate_by :
    Option Workspace
    → Option (ℕ → QualityGateSpec → Workspace → Result QualityGate)
    → List QualityGateSpec
    → Exec (List QualityGate)
evaluate_by (some workspace) (some runner) specs = run_gates runner specs workspace
evaluate_by _ _ specs = pure (map no_workspace_gate specs)

unfoldable pub evaluate_specs : Ports → AgentRun → List QualityGateSpec → Exec (List QualityGate)
unfolding evaluate_by
evaluate_specs p run specs = evaluate_by run.workspace p.run_gate specs

-- `_evaluate_gates`
unfoldable pub evaluate_gates : Ports → TrackingService → AgentRun → Exec (List QualityGate)
evaluate_gates p s run = do specs ← specs_for s run; evaluate_specs p run specs

-- `_fingerprint`, by the inspector if there is one
unfoldable pub fingerprint_by :
    Option (ℕ → Workspace → Option String) → Workspace → Exec (Option String)
fingerprint_by none workspace = pure none
fingerprint_by (some inspect) workspace = ask (λ n. inspect n workspace)

unfoldable pub fingerprint : Ports → Workspace → Exec (Option String)
unfolding fingerprint_by
fingerprint p workspace = fingerprint_by p.fingerprint workspace

abbrev pub Verdict : Type 0
Verdict = List QualityGate × Option String

-- The end of `_validate_revision`, from the two fingerprints and the gates between them.
unfoldable pub conclude : String → List QualityGate → Option String → Verdict
unfolding integrity_failure
conclude before gates none = (gates ++ integrity_failure "workspace inspection failed", none)
conclude before gates (some after) =
    if not (before == after)
    then (gates ++ integrity_failure "workspace changed during validation", none)
    else if not (required_green gates)
    then (gates, none)
    else (gates, some after)

unfoldable pub inspect_and_run :
    Ports → TrackingService → AgentRun → Workspace → Option String → Exec Verdict
inspect_and_run p s run workspace none =
    pure (integrity_failure "workspace inspection failed", none)
inspect_and_run p s run workspace (some before) = do
  gates ← evaluate_gates p s run
  after ← fingerprint p workspace
  pure (conclude before gates after)

unfoldable pub repaired_revision :
    Ports → TrackingService → AgentRun → FactoryTask → Workspace → Result Workspace → Exec Verdict
repaired_revision p s run task workspace (err e) =
    pure (integrity_failure "workspace repair failed", none)
repaired_revision p s run task workspace (ok repaired) =
    if not (workspace_eq repaired workspace)
      || not (workspace.repository_slug == task.target_repository)
    then pure (integrity_failure "workspace identity mismatch", none)
    else do before ← fingerprint p workspace; inspect_and_run p s run workspace before

unfoldable pub repair_unavailable : Verdict
repair_unavailable = (integrity_failure "workspace repair unavailable", none)

-- `_validate_revision` from the run's workspace, its task and the provisioner, if there are such
unfoldable pub validate_by :
    Ports
    → TrackingService
    → AgentRun
    → Option Workspace
    → Option FactoryTask
    → Option (ℕ → FactoryTask → Workspace → Result Workspace)
    → Exec Verdict
validate_by p s run (some workspace) (some task) (some repair) = do
  reply ← ask (λ n. repair n task workspace)
  repaired_revision p s run task workspace reply
validate_by p s run _ _ _ = pure repair_unavailable

-- `_validate_revision`
unfoldable pub validate_revision : Ports → TrackingService → AgentRun → Exec Verdict
validate_revision p s run = do
  task ← query (find_task run.task_id)
  validate_by p s run run.workspace task p.repair

-- The gates of an operational acceptance that may be recorded: at least one is required.
accepted_gates : List QualityGate → List QualityGate
accepted_gates gates =
    if any (λ gate. gate.required) gates
    then gates
    else failed_gate "operational_acceptance" "unavailable" true ∷ []

operational_gates : Option (List QualityGate) → List QualityGate
operational_gates none = failed_gate "operational_acceptance" "unavailable" true ∷ []
operational_gates (some gates) = accepted_gates gates

unfoldable pub accept_by :
    Option (ℕ → FactoryTask → AgentRun → Option (List QualityGate))
    → FactoryTask
    → AgentRun
    → Exec (List QualityGate)
unfolding accepted_gates operational_gates
accept_by none task run = pure (failed_gate "operational_capability" "missing" true ∷ [])
accept_by (some validate) task run = do
  reply ← ask (λ n. validate n task run)
  pure (operational_gates reply)

-- `_validate_operational`
unfoldable pub validate_operational : Ports → FactoryTask → AgentRun → Exec (List QualityGate)
unfolding accept_by
validate_operational p task run = accept_by p.accept_operational task run
