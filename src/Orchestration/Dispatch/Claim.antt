-- ===== src/Orchestration/Dispatch/Claim.antt =====
-- The claim race of `_claim` in src/factory/orchestration/dispatch.py.
use ai_factory_lab.Common.{◌≡◌, ◌≢◌, refl, some, false}
use ai_factory_lab.Domain.Enums.{TaskStatus}
use ai_factory_lab.Domain.Models.{FactoryTask, ContextPack}
use ai_factory_lab.Domain.Errors.{ok, err, dispatch_conflict}
use ai_factory_lab.Domain.Lifecycle.{can_transition}
use ai_factory_lab.Store.{find_task}
use ai_factory_lab.Exec.{raise, Ports, World, attempt, ◌>>=◌, continue}
use ai_factory_lab.Orchestration.Transitions.Branches.{transition_branches}
use ai_factory_lab.Orchestration.Dispatch.{DispatchService, claim, claim_failed, dispatch_claimed}

-- READY is the only status with a normal edge to CLAIMED.
only_ready : (s : TaskStatus) → s ≢ TaskStatus.ready → can_transition s TaskStatus.claimed ≡ false
unfolding can_transition
only_ready TaskStatus.ready differs = absurd (differs refl)
only_ready s differs = refl

-- A caller that read its task as READY, and whose task another dispatcher has claimed since, gets
-- the claimed row back from `_claim` as if it had won: no conflict is raised, nothing is written, and
-- the rest of `dispatch`, with its workspace and its agent, runs on that row.
pub claim-already_claimed :
    (p : Ports) (s : DispatchService) (task : FactoryTask) (pack : ContextPack) (w : World)
    {stored : FactoryTask}
    → find_task task.task_id w.db ≡ some stored
    → stored.status ≡ TaskStatus.claimed
    → (claim p task w ≡ (ok stored, w))
      × ((claim p task >>= dispatch_claimed p s pack) w ≡ dispatch_claimed p s pack stored w)
claim-already_claimed p s task pack w {stored} found taken =
    let won : claim p task w ≡ (ok stored, w) =
      unfold claim attempt in
      rw ((transition_branches p task.task_id TaskStatus.claimed w found).0 taken) in
    (won, unfold ◌>>=◌ in rw (won, continue))

-- A caller whose task has moved, since it read it, to any status but READY and CLAIMED loses with a
-- dispatch conflict, and nothing is written.
pub claim-lost :
    (p : Ports) (task : FactoryTask) (w : World) {stored : FactoryTask}
    → find_task task.task_id w.db ≡ some stored
    → stored.status ≢ TaskStatus.ready
    → stored.status ≢ TaskStatus.claimed
    → claim p task w ≡ (err (dispatch_conflict task.task_id), w)
unfolding claim attempt claim_failed raise
claim-lost p task w {stored} found unready unclaimed = rw (
    (transition_branches p task.task_id TaskStatus.claimed w found).1 unclaimed
      (only_ready stored.status unready))
