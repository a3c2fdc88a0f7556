-- ===== src/Domain/Models.antt =====
-- src/factory/domain/models.py and src/factory/domain/context.py: the data of the control plane.
-- Timestamps are numbers of seconds. A context fragment's text stands outside its identity.
use ai_factory_lab.Common.{
  ℕ, String, Bool, true, false, not, ◌&&◌, Option, List, [], all, any, ◌==◌, if◌then◌else◌,
}
use ai_factory_lab.Domain.Enums.{
  TaskStatus, RunStatus, TaskKind, QualityGateStatus, ValidationOutcome, AgentKind, run_status_eq,
  quality_gate_status_eq,
}

pub record TaskSource : Type 0 where
  pub provider : String
  pub repository_slug : String
  pub issue_number : ℕ

pub record TaskTransition : Type 0 where
  pub task_id : String
  pub from_status : TaskStatus
  pub to_status : TaskStatus
  pub transition_id : String
  pub occurred_at : ℕ

pub record Workspace : Type 0 where
  pub workspace_id : String
  pub repository_slug : String
  pub branch : String
  pub path : String
  pub kind : TaskKind
  pub created_at : ℕ

pub record QualityGate : Type 0 where
  pub name : String
  pub status : QualityGateStatus
  pub detail : Option String
  pub required : Bool

unfoldable pub is_green : QualityGate → Bool
is_green gate = gate.status == QualityGateStatus.passed

unfoldable pub is_blocking : QualityGate → Bool
unfolding is_green
is_blocking gate = gate.required && not (is_green gate)

pub record QualityGateSpec : Type 0 where
  pub name : String
  pub argv : List String
  pub required : Bool

pub record FactoryTask : Type 0 where
  pub title : String
  pub target_repository : String
  pub source : Option TaskSource
  pub task_id : String
  pub body : String
  pub status : TaskStatus
  pub labels : List String
  pub kind : TaskKind
  pub blocked_reason : Option String
  pub created_at : ℕ
  pub updated_at : ℕ
  pub project_id : String

pub record ContextFragment : Type 0 where
  pub source : String
  pub type : String
  pub id : String
  pub version : String
  pub content_ref : String

pub record ContextPack : Type 0 where
  pub version : ℕ
  pub budget : ℕ
  pub fragments : List ContextFragment
  pub sha256 : String
  pub base_sha256 : Option String

pub record AgentRun : Type 0 where
  pub task_id : String
  pub adapter : AgentKind
  pub run_id : String
  pub status : RunStatus
  pub workspace : Option Workspace
  pub summary : Option String
  pub started_at : Option ℕ
  pub last_heartbeat : Option ℕ
  pub agent_heartbeat : Option ℕ
  pub finished_at : Option ℕ
  pub gates : List QualityGate
  pub validated_revision : Option String
  pub context_pack : Option ContextPack
  pub project_id : String
  pub worker_id : Option String
  pub session_id : Option String

abbrev pub terminal_run : RunStatus → Bool
terminal_run RunStatus.succeeded = true
terminal_run RunStatus.failed = true
terminal_run RunStatus.cancelled = true
terminal_run _ = false

unfoldable pub is_terminal : AgentRun → Bool
is_terminal run = terminal_run run.status

unfoldable pub all_gates_passed : AgentRun → Bool
unfolding is_green
all_gates_passed run = elim run.gates [ [] ↦ false | _ ↦ all is_green run.gates ]

-- `all(gate.is_green for gate in gates if gate.required)`
unfoldable pub required_green : List QualityGate → Bool
unfolding is_green
required_green gates = all (λ gate. if gate.required then is_green gate else true) gates

unfoldable pub required_gates_passed : AgentRun → Bool
unfolding required_green
required_gates_passed run = required_green run.gates

unfoldable pub has_required_gates : AgentRun → Bool
has_required_gates run = any (λ gate. gate.required) run.gates

unfoldable pub validation_outcome : AgentRun → ValidationOutcome
unfolding required_gates_passed
validation_outcome run =
    if not (run.status == RunStatus.succeeded)
    then ValidationOutcome.pending
    else if required_gates_passed run
    then ValidationOutcome.ready_for_next_phase
    else ValidationOutcome.gates_failed

-- A workspace revision that was published.
pub record PublishedRevision : Type 0 where
  pub commit_sha : String
  pub branch : String

pub record PullRequest : Type 0 where
  pub repository_slug : String
  pub head_branch : String
  pub base_branch : String
  pub title : String
  pub body : String
  pub number : Option ℕ
  pub url : Option String
  pub task_id : Option String
  pub run_id : Option String
  pub opened_at : ℕ
  pub merged : Bool
  pub commit_sha : Option String

-- The states of a pull request that a provider reports.
pub data PullRequestState : Type 0 where
  open_state merged_state closed_state : PullRequestState
