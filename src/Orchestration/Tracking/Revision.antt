-- ===== src/Orchestration/Tracking/Revision.antt =====
-- What `_validate_revision` and `_run_gate` of src/factory/orchestration/tracking.py guarantee,
-- whatever the repair, the inspector and the gate runner answer.
use ai_factory_lab.Common.{
  ℕ, String, ◌≡◌, refl, sym, Bool, false, Option, none, some, List, [], ◌∷◌, ◌++◌, map, ◌==◌,
  string_eq, Bool-cases, inl, inr, arith, is_some,
}
use ai_factory_lab.Domain.Enums.{quality_gate_status_eq}
use ai_factory_lab.Domain.Models.{
  Workspace, FactoryTask, AgentRun, QualityGate, QualityGateSpec, required_green,
}
use ai_factory_lab.Domain.Errors.{Result, ok, err}
use ai_factory_lab.Exec.{Ports, World, pure, lift, ask}
use ai_factory_lab.Exec.Ensures.{
  Ensures, Ensures-pure, Ensures-if, Ensures-then, Ensures_result, Ensures-bind,
}
use ai_factory_lab.Orchestration.Tracking.{
  TrackingService, Verdict, failed_gate, integrity_failure, conclude, inspect_and_run,
  repaired_revision, fingerprint, fingerprint_by, validate_by, validate_revision,
  repair_unavailable, evaluate_gates, gate_result, gate_reply, run_gates, evaluate_by,
  evaluate_specs, no_workspace_gate,
}

-- A required integrity failure makes any list of gates red.
required_green-failure :
    (gates : List QualityGate) (detail : String)
    → required_green (gates ++ integrity_failure detail) ≡ false
unfolding required_green integrity_failure
required_green-failure [] detail = refl
required_green-failure (g ∷ gates) detail = ground (arith, required_green-failure gates detail)

-- The inspector reported `revision` for the run's workspace.
pub record Reported (p : Ports) (run : AgentRun) (revision : String) : Type 0 where
  pub workspace : Workspace
  pub attached : run.workspace ≡ some workspace
  pub inspect : ℕ → Workspace → Option String
  pub configured : p.fingerprint ≡ some inspect
  pub moment : ℕ
  pub answer : inspect moment workspace ≡ some revision

-- A revision is bound exactly where every required gate is green, and only as the inspector's report.
record IsSound (p : Ports) (run : AgentRun) (verdict : Verdict) : Type 0 where
  pub bound_iff_green : is_some verdict.1 ≡ required_green verdict.0
  pub reported : (revision : String) → verdict.1 ≡ some revision → Reported p run revision

module _ (p : Ports) (s : TrackingService) (run : AgentRun) where
  failure-IsSound : (detail : String) → IsSound p run (integrity_failure detail, none)
  failure-IsSound detail = record {
    bound_iff_green = sym (required_green-failure [] detail);
    reported = λ revision e. cc;
  }

  module _ (workspace : Workspace) (attached : run.workspace ≡ some workspace) where
    conclude-IsSound :
        (before : String) (gates : List QualityGate) (after : Option String)
        → ((revision : String) → after ≡ some revision → Reported p run revision)
        → IsSound p run (conclude before gates after)
    unfolding conclude
    conclude-IsSound before gates none reports = record {
      bound_iff_green = sym (required_green-failure gates "workspace inspection failed");
      reported = λ revision e. cc;
    }
    conclude-IsSound before gates (some after) reports = elim (Bool-cases (before == after)) [
      | inr changed ↦ rw changed (record {
        bound_iff_green = sym (required_green-failure gates "workspace changed during validation");
        reported = λ revision e. cc;
      })
      | inl same ↦ rw same (elim (Bool-cases (required_green gates)) [
        | inl green ↦ rw green (record { bound_iff_green = sym green; reported = reports })
        | inr red ↦ rw red (record { bound_iff_green = sym red; reported = λ revision e. cc })
      ])
    ]

    fingerprint_by-Reported :
        (inspector : Option (ℕ → Workspace → Option String))
        → p.fingerprint ≡ inspector
        → Ensures
            (λ answer. (revision : String) → answer ≡ some revision → Reported p run revision)
            (fingerprint_by inspector workspace)
    unfolding fingerprint_by ask
    fingerprint_by-Reported none configured = Ensures-pure none (λ revision e. cc)
    fingerprint_by-Reported (some inspect) configured = record {
      at = λ w revision e. record {
        workspace = workspace;
        attached = attached;
        inspect = inspect;
        configured = configured;
        moment = w.tick;
        answer = e;
      };
    }

    fingerprint-Reported :
        Ensures
          (λ answer. (revision : String) → answer ≡ some revision → Reported p run revision)
          (fingerprint p workspace)
    unfolding fingerprint
    fingerprint-Reported = fingerprint_by-Reported p.fingerprint refl

    inspect_and_run-IsSound :
        (before : Option String)
        → Ensures (IsSound p run) (inspect_and_run p s run workspace before)
    unfolding inspect_and_run
    inspect_and_run-IsSound none = Ensures-pure _ (failure-IsSound "workspace inspection failed")
    inspect_and_run-IsSound (some before) = Ensures-then (evaluate_gates p s run) _ (λ gates.
        Ensures-bind (fingerprint p workspace) _ fingerprint-Reported
          (λ after reports. Ensures-pure _ (conclude-IsSound before gates after reports)))

    repaired_revision-IsSound :
        (task : FactoryTask) (reply : Result Workspace)
        → Ensures (IsSound p run) (repaired_revision p s run task workspace reply)
    unfolding repaired_revision
    repaired_revision-IsSound task (err e) =
        Ensures-pure _ (failure-IsSound "workspace repair failed")
    repaired_revision-IsSound task (ok repaired) =
        Ensures-if _ _ _ (λ _. Ensures-pure _ (failure-IsSound "workspace identity mismatch"))
          (λ _. Ensures-then (fingerprint p workspace) _ inspect_and_run-IsSound)

  unavailable-IsSound : Ensures (IsSound p run) (pure repair_unavailable)
  unfolding repair_unavailable
  unavailable-IsSound = Ensures-pure _ (failure-IsSound "workspace repair unavailable")

  validate_by-IsSound :
      (workspace : Option Workspace) (task : Option FactoryTask)
      (repair : Option (ℕ → FactoryTask → Workspace → Result Workspace))
      → run.workspace ≡ workspace
      → Ensures (IsSound p run) (validate_by p s run workspace task repair)
  unfolding validate_by
  validate_by-IsSound (some workspace) (some task) (some repair) attached =
      Ensures-then (ask (λ n. repair n task workspace)) _
        (repaired_revision-IsSound workspace attached task)
  validate_by-IsSound _ _ _ attached = unavailable-IsSound

  validate_revision-Ensures : Ensures (IsSound p run) (validate_revision p s run)
  unfolding validate_revision
  validate_revision-Ensures =
      Ensures-then _ _ (λ task. validate_by-IsSound run.workspace task p.repair refl)

-- Whatever the ports answer: where `_validate_revision` returns, it binds a revision exactly if every
-- required gate that it returns is green.
pub validate_revision-bound_iff_green :
    (p : Ports) (s : TrackingService) (run : AgentRun) (w : World) {verdict : Verdict}
    → (validate_revision p s run w).0 ≡ ok verdict
    → is_some verdict.1 ≡ required_green verdict.0
validate_revision-bound_iff_green p s run w {verdict} returned =
    (Ensures_result (validate_revision p s run) (validate_revision-Ensures p s run) w {a = verdict}
      returned).bound_iff_green

-- A revision that `_validate_revision` binds is one that the configured inspector reported, at some
-- moment, for the run's own workspace.
pub validate_revision-Reported :
    (p : Ports) (s : TrackingService) (run : AgentRun) (w : World) {gates : List QualityGate}
    {revision : String}
    → (validate_revision p s run w).0 ≡ ok (gates, some revision)
    → Reported p run revision
validate_revision-Reported p s run w {gates} {revision} returned =
    (Ensures_result (validate_revision p s run) (validate_revision-Ensures p s run) w
        {a = (gates, some revision)} returned).reported
      revision refl

-- The gates of a validation, without the results.
abbrev Requirement : Type 0
Requirement = String × Bool

abbrev pub of_gate : QualityGate → Requirement
of_gate gate = (gate.name, gate.required)

abbrev pub of_spec : QualityGateSpec → Requirement
of_spec spec = (spec.name, spec.required)

gate_reply-of_spec :
    (spec : QualityGateSpec) (reply : Result QualityGate) {gate : QualityGate}
    → gate_reply spec reply ≡ ok gate
    → of_gate gate ≡ of_spec spec
unfolding gate_reply gate_result failed_gate
gate_reply-of_spec spec (ok result) h = ground arith
gate_reply-of_spec spec (err e) h = ground arith

lift-Ensures :
    {A : Type 0} {Q : A → Type 0} (r : Result A) → ((a : A) → r ≡ ok a → Q a) → Ensures Q (lift r)
unfolding lift
lift-Ensures (ok a) h = record { at = λ w. h a refl }
lift-Ensures (err e) h = record { at = λ w. tt }

run_gates-Ensures :
    (runner : ℕ → QualityGateSpec → Workspace → Result QualityGate) (specs : List QualityGateSpec)
    (workspace : Workspace)
    → Ensures (λ gates. map of_gate gates ≡ map of_spec specs) (run_gates runner specs workspace)
unfolding run_gates
run_gates-Ensures runner [] workspace = Ensures-pure [] refl
run_gates-Ensures runner (spec ∷ specs) workspace =
    Ensures-then (ask (λ n. runner n spec workspace)) _ (λ reply.
      Ensures-bind (lift (gate_reply spec reply)) _
        (lift-Ensures (gate_reply spec reply)
          (λ gate h. gate_reply-of_spec spec reply {gate = gate} h))
        (λ gate kept.
          Ensures-bind (run_gates runner specs workspace) _
            (run_gates-Ensures runner specs workspace)
            (λ rest same. Ensures-pure (gate ∷ rest) (cc))))

no_workspace-of_spec :
    (specs : List QualityGateSpec) → map of_gate (map no_workspace_gate specs) ≡ map of_spec specs
unfolding no_workspace_gate failed_gate
no_workspace-of_spec [] = refl
no_workspace-of_spec (spec ∷ specs) = cc (no_workspace-of_spec specs)

evaluate_by-Ensures :
    (workspace : Option Workspace)
    (runner : Option (ℕ → QualityGateSpec → Workspace → Result QualityGate))
    (specs : List QualityGateSpec)
    → Ensures (λ gates. map of_gate gates ≡ map of_spec specs) (evaluate_by workspace runner specs)
unfolding evaluate_by
evaluate_by-Ensures (some workspace) (some runner) specs = run_gates-Ensures runner specs workspace
evaluate_by-Ensures _ _ specs = Ensures-pure _ (no_workspace-of_spec specs)

evaluate_specs-Ensures :
    (p : Ports) (run : AgentRun) (specs : List QualityGateSpec)
    → Ensures (λ gates. map of_gate gates ≡ map of_spec specs) (evaluate_specs p run specs)
unfolding evaluate_specs
evaluate_specs-Ensures p run specs = evaluate_by-Ensures run.workspace p.run_gate specs

-- Where the configured gates are evaluated, each configured check gives one result, in order, with
-- its own name and its own required flag: no answer of the runner drops, renames or relaxes one.
pub evaluate_specs-of_spec :
    (p : Ports) (run : AgentRun) (specs : List QualityGateSpec) (w : World)
    {gates : List QualityGate}
    → (evaluate_specs p run specs w).0 ≡ ok gates
    → map of_gate gates ≡ map of_spec specs
evaluate_specs-of_spec p run specs w returned =
    Ensures_result (evaluate_specs p run specs) (evaluate_specs-Ensures p run specs) w returned
