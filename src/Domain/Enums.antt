-- ===== src/Domain/Enums.antt =====
-- src/factory/domain/enums.py: the string enumerations, with the test `is` for each. A member is
-- compared by its position in the source, `rank`, and `of_rank` reads the position back.
use ai_factory_lab.Common.{ℕ, zero, suc, ◌≡◌, refl, Eq, nat_beq, code_beq_iff}

-- Lifecycle status of a task.
pub data TaskStatus : Type 0 where
  discovered ready claimed running validating pr_open waiting_human changes_requested done blocked
        failed cancelled :
      TaskStatus

abbrev pub task_status_rank : TaskStatus → ℕ
task_status_rank TaskStatus.discovered = 0
task_status_rank TaskStatus.ready = 1
task_status_rank TaskStatus.claimed = 2
task_status_rank TaskStatus.running = 3
task_status_rank TaskStatus.validating = 4
task_status_rank TaskStatus.pr_open = 5
task_status_rank TaskStatus.waiting_human = 6
task_status_rank TaskStatus.changes_requested = 7
task_status_rank TaskStatus.done = 8
task_status_rank TaskStatus.blocked = 9
task_status_rank TaskStatus.failed = 10
task_status_rank TaskStatus.cancelled = 11

abbrev pub task_status_of_rank : ℕ → TaskStatus
task_status_of_rank zero = TaskStatus.discovered
task_status_of_rank (suc zero) = TaskStatus.ready
task_status_of_rank (suc (suc zero)) = TaskStatus.claimed
task_status_of_rank (suc (suc (suc zero))) = TaskStatus.running
task_status_of_rank (suc (suc (suc (suc zero)))) = TaskStatus.validating
task_status_of_rank (suc (suc (suc (suc (suc zero))))) = TaskStatus.pr_open
task_status_of_rank (suc (suc (suc (suc (suc (suc zero)))))) = TaskStatus.waiting_human
task_status_of_rank (suc (suc (suc (suc (suc (suc (suc zero))))))) = TaskStatus.changes_requested
task_status_of_rank (suc (suc (suc (suc (suc (suc (suc (suc zero)))))))) = TaskStatus.done
task_status_of_rank (suc (suc (suc (suc (suc (suc (suc (suc (suc zero))))))))) = TaskStatus.blocked
task_status_of_rank (suc (suc (suc (suc (suc (suc (suc (suc (suc (suc zero)))))))))) =
    TaskStatus.failed
task_status_of_rank _ = TaskStatus.cancelled

pub task_status_of_rank-rank : (a : TaskStatus) → task_status_of_rank (task_status_rank a) ≡ a
task_status_of_rank-rank TaskStatus.discovered = refl
task_status_of_rank-rank TaskStatus.ready = refl
task_status_of_rank-rank TaskStatus.claimed = refl
task_status_of_rank-rank TaskStatus.running = refl
task_status_of_rank-rank TaskStatus.validating = refl
task_status_of_rank-rank TaskStatus.pr_open = refl
task_status_of_rank-rank TaskStatus.waiting_human = refl
task_status_of_rank-rank TaskStatus.changes_requested = refl
task_status_of_rank-rank TaskStatus.done = refl
task_status_of_rank-rank TaskStatus.blocked = refl
task_status_of_rank-rank TaskStatus.failed = refl
task_status_of_rank-rank TaskStatus.cancelled = refl

instance abbrev pub task_status_eq : Eq TaskStatus
task_status_eq = record {
  beq = λ a b. nat_beq (task_status_rank a) (task_status_rank b);
  beq_iff = code_beq_iff task_status_rank task_status_of_rank task_status_of_rank-rank;
}

-- Status of a single agent run.
pub data RunStatus : Type 0 where
  pending running succeeded failed cancelled : RunStatus

abbrev pub run_status_rank : RunStatus → ℕ
run_status_rank RunStatus.pending = 0
run_status_rank RunStatus.running = 1
run_status_rank RunStatus.succeeded = 2
run_status_rank RunStatus.failed = 3
run_status_rank RunStatus.cancelled = 4

abbrev pub run_status_of_rank : ℕ → RunStatus
run_status_of_rank zero = RunStatus.pending
run_status_of_rank (suc zero) = RunStatus.running
run_status_of_rank (suc (suc zero)) = RunStatus.succeeded
run_status_of_rank (suc (suc (suc zero))) = RunStatus.failed
run_status_of_rank _ = RunStatus.cancelled

pub run_status_of_rank-rank : (a : RunStatus) → run_status_of_rank (run_status_rank a) ≡ a
run_status_of_rank-rank RunStatus.pending = refl
run_status_of_rank-rank RunStatus.running = refl
run_status_of_rank-rank RunStatus.succeeded = refl
run_status_of_rank-rank RunStatus.failed = refl
run_status_of_rank-rank RunStatus.cancelled = refl

instance abbrev pub run_status_eq : Eq RunStatus
run_status_eq = record {
  beq = λ a b. nat_beq (run_status_rank a) (run_status_rank b);
  beq_iff = code_beq_iff run_status_rank run_status_of_rank run_status_of_rank-rank;
}

-- Explicit execution contract selected at intake.
pub data TaskKind : Type 0 where
  code operational : TaskKind

abbrev pub task_kind_rank : TaskKind → ℕ
task_kind_rank TaskKind.code = 0
task_kind_rank TaskKind.operational = 1

abbrev pub task_kind_of_rank : ℕ → TaskKind
task_kind_of_rank zero = TaskKind.code
task_kind_of_rank _ = TaskKind.operational

pub task_kind_of_rank-rank : (a : TaskKind) → task_kind_of_rank (task_kind_rank a) ≡ a
task_kind_of_rank-rank TaskKind.code = refl
task_kind_of_rank-rank TaskKind.operational = refl

instance abbrev pub task_kind_eq : Eq TaskKind
task_kind_eq = record {
  beq = λ a b. nat_beq (task_kind_rank a) (task_kind_rank b);
  beq_iff = code_beq_iff task_kind_rank task_kind_of_rank task_kind_of_rank-rank;
}

-- Outcome of a quality gate evaluated against an agent run.
pub data QualityGateStatus : Type 0 where
  pending passed failed skipped : QualityGateStatus

abbrev pub quality_gate_status_rank : QualityGateStatus → ℕ
quality_gate_status_rank QualityGateStatus.pending = 0
quality_gate_status_rank QualityGateStatus.passed = 1
quality_gate_status_rank QualityGateStatus.failed = 2
quality_gate_status_rank QualityGateStatus.skipped = 3

abbrev pub quality_gate_status_of_rank : ℕ → QualityGateStatus
quality_gate_status_of_rank zero = QualityGateStatus.pending
quality_gate_status_of_rank (suc zero) = QualityGateStatus.passed
quality_gate_status_of_rank (suc (suc zero)) = QualityGateStatus.failed
quality_gate_status_of_rank _ = QualityGateStatus.skipped

pub quality_gate_status_of_rank-rank :
    (a : QualityGateStatus) → quality_gate_status_of_rank (quality_gate_status_rank a) ≡ a
quality_gate_status_of_rank-rank QualityGateStatus.pending = refl
quality_gate_status_of_rank-rank QualityGateStatus.passed = refl
quality_gate_status_of_rank-rank QualityGateStatus.failed = refl
quality_gate_status_of_rank-rank QualityGateStatus.skipped = refl

instance abbrev pub quality_gate_status_eq : Eq QualityGateStatus
quality_gate_status_eq = record {
  beq = λ a b. nat_beq (quality_gate_status_rank a) (quality_gate_status_rank b);
  beq_iff =
      code_beq_iff quality_gate_status_rank quality_gate_status_of_rank
        quality_gate_status_of_rank-rank;
}

-- Result of validating a succeeded agent run.
pub data ValidationOutcome : Type 0 where
  pending ready_for_next_phase gates_failed : ValidationOutcome

abbrev pub validation_outcome_rank : ValidationOutcome → ℕ
validation_outcome_rank ValidationOutcome.pending = 0
validation_outcome_rank ValidationOutcome.ready_for_next_phase = 1
validation_outcome_rank ValidationOutcome.gates_failed = 2

abbrev pub validation_outcome_of_rank : ℕ → ValidationOutcome
validation_outcome_of_rank zero = ValidationOutcome.pending
validation_outcome_of_rank (suc zero) = ValidationOutcome.ready_for_next_phase
validation_outcome_of_rank _ = ValidationOutcome.gates_failed

pub validation_outcome_of_rank-rank :
    (a : ValidationOutcome) → validation_outcome_of_rank (validation_outcome_rank a) ≡ a
validation_outcome_of_rank-rank ValidationOutcome.pending = refl
validation_outcome_of_rank-rank ValidationOutcome.ready_for_next_phase = refl
validation_outcome_of_rank-rank ValidationOutcome.gates_failed = refl

instance abbrev pub validation_outcome_eq : Eq ValidationOutcome
validation_outcome_eq = record {
  beq = λ a b. nat_beq (validation_outcome_rank a) (validation_outcome_rank b);
  beq_iff =
      code_beq_iff validation_outcome_rank validation_outcome_of_rank
        validation_outcome_of_rank-rank;
}

-- Execution engines the factory can dispatch to.
pub data AgentKind : Type 0 where
  openhands codex other : AgentKind

abbrev pub agent_kind_rank : AgentKind → ℕ
agent_kind_rank AgentKind.openhands = 0
agent_kind_rank AgentKind.codex = 1
agent_kind_rank AgentKind.other = 2

abbrev pub agent_kind_of_rank : ℕ → AgentKind
agent_kind_of_rank zero = AgentKind.openhands
agent_kind_of_rank (suc zero) = AgentKind.codex
agent_kind_of_rank _ = AgentKind.other

pub agent_kind_of_rank-rank : (a : AgentKind) → agent_kind_of_rank (agent_kind_rank a) ≡ a
agent_kind_of_rank-rank AgentKind.openhands = refl
agent_kind_of_rank-rank AgentKind.codex = refl
agent_kind_of_rank-rank AgentKind.other = refl

instance abbrev pub agent_kind_eq : Eq AgentKind
agent_kind_eq = record {
  beq = λ a b. nat_beq (agent_kind_rank a) (agent_kind_rank b);
  beq_iff = code_beq_iff agent_kind_rank agent_kind_of_rank agent_kind_of_rank-rank;
}
