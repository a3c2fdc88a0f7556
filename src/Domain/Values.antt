-- ===== src/Domain/Values.antt =====
-- src/factory/domain/enums.py: the texts of enumeration members, and a member by its text.
use ai_factory_lab.Common.{String, ◌≡◌, refl, Option, none, some, ◌==◌, string_eq, if◌then◌else◌}
use ai_factory_lab.Domain.Enums.{QualityGateStatus, ValidationOutcome}

-- `QualityGateStatus.value` and `ValidationOutcome.value`
unfoldable pub gate_status_value : QualityGateStatus → String
gate_status_value QualityGateStatus.pending = "PENDING"
gate_status_value QualityGateStatus.passed = "PASSED"
gate_status_value QualityGateStatus.failed = "FAILED"
gate_status_value QualityGateStatus.skipped = "SKIPPED"

unfoldable pub outcome_value : ValidationOutcome → String
outcome_value ValidationOutcome.pending = "PENDING"
outcome_value ValidationOutcome.ready_for_next_phase = "READY_FOR_NEXT_PHASE"
outcome_value ValidationOutcome.gates_failed = "GATES_FAILED"

-- `QualityGateStatus(text)`, `none` where it raises a `ValueError`
unfoldable pub gate_status_of : String → Option QualityGateStatus
gate_status_of text =
    if text == "PENDING"
    then some QualityGateStatus.pending
    else if text == "PASSED"
    then some QualityGateStatus.passed
    else if text == "FAILED"
    then some QualityGateStatus.failed
    else if text == "SKIPPED"
    then some QualityGateStatus.skipped
    else none

-- A member is found by its text.
pub gate_status_of-gate_status_value :
    (status : QualityGateStatus) → gate_status_of (gate_status_value status) ≡ some status
unfolding gate_status_of gate_status_value
gate_status_of-gate_status_value QualityGateStatus.pending = refl
gate_status_of-gate_status_value QualityGateStatus.passed = refl
gate_status_of-gate_status_value QualityGateStatus.failed = refl
gate_status_of-gate_status_value QualityGateStatus.skipped = refl
