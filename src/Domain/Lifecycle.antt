-- ===== src/Domain/Lifecycle.antt =====
-- src/factory/domain/task_lifecycle.py: the graph of task statuses that orchestration and
-- persistence share.
pub mod Graph
use ai_factory_lab.Common.{Bool, ◌||◌, List, [], ◌∷◌, contains}
use ai_factory_lab.Domain.Enums.{TaskStatus, task_status_eq}

abbrev pub terminal_states : List TaskStatus
terminal_states = TaskStatus.done ∷ TaskStatus.failed ∷ TaskStatus.cancelled ∷ []

-- `TRANSITIONS[status]`
unfoldable pub next_states : TaskStatus → List TaskStatus
next_states TaskStatus.discovered = TaskStatus.ready ∷ TaskStatus.cancelled ∷ TaskStatus.failed ∷ []
next_states TaskStatus.ready = TaskStatus.claimed ∷ TaskStatus.blocked ∷ TaskStatus.cancelled ∷ []
next_states TaskStatus.claimed = TaskStatus.running ∷ TaskStatus.blocked ∷ TaskStatus.cancelled ∷ []
next_states TaskStatus.running =
    TaskStatus.validating ∷ TaskStatus.blocked ∷ TaskStatus.failed ∷ TaskStatus.cancelled ∷ []
next_states TaskStatus.validating =
    TaskStatus.pr_open ∷ TaskStatus.ready ∷ TaskStatus.blocked ∷ TaskStatus.done ∷ TaskStatus.failed
    ∷ TaskStatus.cancelled ∷ []
next_states TaskStatus.pr_open =
    TaskStatus.waiting_human ∷ TaskStatus.blocked ∷ TaskStatus.failed ∷ TaskStatus.cancelled ∷ []
next_states TaskStatus.waiting_human =
    TaskStatus.changes_requested ∷ TaskStatus.done ∷ TaskStatus.failed ∷ TaskStatus.cancelled ∷ []
next_states TaskStatus.changes_requested = TaskStatus.ready ∷ TaskStatus.cancelled ∷ []
next_states TaskStatus.blocked =
    TaskStatus.ready ∷ TaskStatus.validating ∷ TaskStatus.cancelled ∷ []
next_states TaskStatus.done = []
next_states TaskStatus.failed = []
next_states TaskStatus.cancelled = []

-- `PERSISTENCE_ONLY_TRANSITIONS.get(status, frozenset())`
unfoldable pub persistence_only : TaskStatus → List TaskStatus
persistence_only TaskStatus.ready = TaskStatus.waiting_human ∷ []
persistence_only TaskStatus.running = TaskStatus.waiting_human ∷ []
persistence_only TaskStatus.failed = TaskStatus.ready ∷ []
persistence_only _ = []

unfoldable pub can_transition : TaskStatus → TaskStatus → Bool
unfolding next_states
can_transition source target = contains (next_states source) target

unfoldable pub can_persist_transition : TaskStatus → TaskStatus → Bool
can_persist_transition source target =
    can_transition source target || contains (persistence_only source) target
