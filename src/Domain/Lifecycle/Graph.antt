-- ===== src/Domain/Lifecycle/Graph.antt =====
-- What the graph of src/factory/domain/task_lifecycle.py guarantees.
use ai_factory_lab.Common.{◌≡◌, refl, Bool, true, false, contains, List, [], ◌∷◌, arith}
use ai_factory_lab.Domain.Enums.{TaskStatus, task_status_eq}
use ai_factory_lab.Domain.Lifecycle.{
  terminal_states, can_transition, persistence_only, can_persist_transition,
}

-- Steps of the graph whose edges `edge` decides.
pub data Steps (edge : TaskStatus → TaskStatus → Bool) (s : TaskStatus) : TaskStatus → Type 0 where
  here : Steps edge s s
  next : {t u : TaskStatus} → Steps edge s t → edge t u ≡ true → Steps edge s u

-- The normal graph has no edge out of a terminal status.
pub terminal_no_edge :
    (s t : TaskStatus) → contains terminal_states s ≡ true → can_transition s t ≡ false
unfolding can_transition
terminal_no_edge TaskStatus.done t h = refl
terminal_no_edge TaskStatus.failed t h = refl
terminal_no_edge TaskStatus.cancelled t h = refl
terminal_no_edge s t h = cc

-- However many steps the normal graph takes from a terminal status, it stays there.
pub terminal_absorbing :
    {s t : TaskStatus} → contains terminal_states s ≡ true → Steps can_transition s t → s ≡ t
terminal_absorbing h here = refl
terminal_absorbing {s} h (next {t = t} {u = u} before edge) =
    ground (arith, terminal_absorbing h before, terminal_no_edge s u h)

from_edge :
    {s t u : TaskStatus}
    → can_transition s t ≡ true
    → Steps can_transition t u
    → Steps can_transition s u
from_edge e here = next here e
from_edge e (next before last) = next (from_edge e before) last

from_validating : Steps can_transition TaskStatus.validating TaskStatus.done
unfolding can_transition
from_validating = next here refl

from_claimed : Steps can_transition TaskStatus.claimed TaskStatus.done
unfolding can_transition
from_claimed =
    from_edge {t = TaskStatus.running} refl
      (from_edge {t = TaskStatus.validating} refl from_validating)

from_ready : Steps can_transition TaskStatus.ready TaskStatus.done
unfolding can_transition
from_ready = from_edge {t = TaskStatus.claimed} refl from_claimed

-- From every status that is not terminal, normal steps lead to DONE.
pub reaches_done :
    (s : TaskStatus) → contains terminal_states s ≡ false → Steps can_transition s TaskStatus.done
unfolding can_transition
reaches_done TaskStatus.discovered h = from_edge {t = TaskStatus.ready} refl from_ready
reaches_done TaskStatus.ready h = from_ready
reaches_done TaskStatus.claimed h = from_claimed
reaches_done TaskStatus.running h = from_edge {t = TaskStatus.validating} refl from_validating
reaches_done TaskStatus.validating h = from_validating
reaches_done TaskStatus.pr_open h = from_edge {t = TaskStatus.waiting_human} refl (next here refl)
reaches_done TaskStatus.waiting_human h = next here refl
reaches_done TaskStatus.changes_requested h = from_edge {t = TaskStatus.ready} refl from_ready
reaches_done TaskStatus.blocked h = from_edge {t = TaskStatus.validating} refl from_validating
reaches_done _ h = cc

-- The statuses that may lead to a status, by what the status means: work begins at READY, a run at
-- a claim, a pull request at a validation, changes are asked of a review, and a task is done from a
-- validation or a review.
abbrev pub entered_from : TaskStatus → List TaskStatus
entered_from TaskStatus.claimed = TaskStatus.ready ∷ []
entered_from TaskStatus.running = TaskStatus.claimed ∷ []
entered_from TaskStatus.pr_open = TaskStatus.validating ∷ []
entered_from TaskStatus.changes_requested = TaskStatus.waiting_human ∷ []
entered_from TaskStatus.done = TaskStatus.validating ∷ TaskStatus.waiting_human ∷ []
entered_from TaskStatus.validating = TaskStatus.running ∷ TaskStatus.blocked ∷ []
entered_from TaskStatus.waiting_human =
    TaskStatus.pr_open ∷ TaskStatus.ready ∷ TaskStatus.running ∷ []
entered_from TaskStatus.discovered = []
entered_from _ =
    TaskStatus.discovered ∷ TaskStatus.ready ∷ TaskStatus.claimed ∷ TaskStatus.running
    ∷ TaskStatus.validating ∷ TaskStatus.pr_open ∷ TaskStatus.waiting_human
    ∷ TaskStatus.changes_requested ∷ TaskStatus.blocked ∷ TaskStatus.failed ∷ []

-- Every edge of the persisted graph, the recovery edges included, enters a status only from those.
pub persisted_entries :
    (s t : TaskStatus) → can_persist_transition s t ≡ true → contains (entered_from t) s ≡ true
unfolding can_persist_transition can_transition persistence_only
persisted_entries s t h = ground arith
