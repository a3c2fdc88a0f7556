-- ===== src/Tests/Storage.antt =====
-- The domain and the storage at work on the sample.
use ai_factory_lab.Common.{
  ◌≤◌, ◌≡◌, ◌≢◌, refl, ◌⊎◌, true, false, some, [], ◌∷◌, arith, map, contains,
}
use ai_factory_lab.Domain.Enums.{TaskStatus, RunStatus, task_status_eq}
use ai_factory_lab.Domain.Models.{FactoryTask}
use ai_factory_lab.Domain.Lifecycle.{can_transition, can_persist_transition}
use ai_factory_lab.Domain.Lifecycle.Graph.{Steps, reaches_done, entered_from}
use ai_factory_lab.Domain.Operational.{
  OperationalCapability, OperationalPolicy, HostOperation, capability_eq, permits,
}
use ai_factory_lab.Domain.Operational.Denials.{permits_sound, IsScratch, IsListed}
use ai_factory_lab.Domain.Errors.{Error, ok, err, task_state_changed}
use ai_factory_lab.Store.{Db, is_task, find_task}
use ai_factory_lab.Store.Tasks.{
  apply, apply_transition, idle_guard, set_status, write_transition, history,
}
use ai_factory_lab.Store.Tasks.Writes.{apply_transition-atomic, apply_transition-loser, Written}
use ai_factory_lab.Store.Tasks.Entries.{apply-entered}
use ai_factory_lab.Store.Tasks.Claims.{claim-le-max_claims, transition-within_limit, in_progress}
use ai_factory_lab.Store.Tasks.Audit.{IsAudited, replay, apply-IsAudited}
use ai_factory_lab.Store.Runs.{save_run, update_run}
use ai_factory_lab.Store.Runs.Identity.{
  active_of, Saves, active_of-save_run, identity, identity-update_run,
}
use ai_factory_lab.Tests.Sample.{run, row, database}

claim-le-max_claims_example :
    in_progress
      (apply_transition 1 "t1" TaskStatus.ready TaskStatus.claimed 5 "u1"
        (database TaskStatus.ready [])).1
    ≤ 1
unfolding apply_transition find_task ai_factory_lab.Store.Tasks.checked_transition
    can_persist_transition can_transition ai_factory_lab.Store.Tasks.guarded_write idle_guard
    ai_factory_lab.Store.Tasks.count_distinct ai_factory_lab.Store.Tasks.busy_ids
    ai_factory_lab.Store.is_busy ai_factory_lab.Store.is_busy_status
    ai_factory_lab.Store.Tasks.read_back write_transition
claim-le-max_claims_example =
    claim-le-max_claims 1 "t1" TaskStatus.ready 5 "u1" (database TaskStatus.ready []) refl

transition-within_limit_example :
    in_progress
      (apply_transition 1 "t1" TaskStatus.claimed TaskStatus.running 5 "u1"
        (database TaskStatus.claimed [])).1
    ≤ 1
unfolding ai_factory_lab.Store.Tasks.count_distinct ai_factory_lab.Store.Tasks.busy_ids
    ai_factory_lab.Store.is_busy ai_factory_lab.Store.is_busy_status
transition-within_limit_example =
    transition-within_limit 1 "t1" TaskStatus.claimed TaskStatus.running 5 "u1"
      (database TaskStatus.claimed []) (omega arith) (λ e. cc)

apply_transition-loser_example :
    let after =
      (apply_transition 1 "t1" TaskStatus.ready TaskStatus.claimed 5 "u1"
        (database TaskStatus.ready [])).1 in
    apply_transition 1 "t1" TaskStatus.ready TaskStatus.blocked 6 "u2" after
    ≡ (err (task_state_changed "t1" TaskStatus.ready TaskStatus.claimed), after)
unfolding apply_transition find_task ai_factory_lab.Store.Tasks.checked_transition
    can_persist_transition can_transition ai_factory_lab.Store.Tasks.guarded_write idle_guard
    ai_factory_lab.Store.Tasks.count_distinct ai_factory_lab.Store.Tasks.busy_ids
    ai_factory_lab.Store.is_busy ai_factory_lab.Store.is_busy_status
    ai_factory_lab.Store.Tasks.read_back write_transition
apply_transition-loser_example =
    apply_transition-loser 1 "t1" TaskStatus.ready TaskStatus.claimed TaskStatus.blocked 5 6 "u1"
      "u2" (database TaskStatus.ready []) refl (λ e. cc)

-- Both tasks of the sample were created READY.
abbrev start : Db
start = database TaskStatus.ready []

start-IsAudited : IsAudited (λ id. TaskStatus.ready) start
unfolding replay history find_task is_task
start-IsAudited = record { accounted = λ id t stored. ground (arith, stored) }

apply-IsAudited_example :
    IsAudited
      (λ id. TaskStatus.ready)
      (apply 1 false "t1" TaskStatus.ready TaskStatus.claimed 5 "u1" start).1
apply-IsAudited_example =
    apply-IsAudited 1 false "t1" TaskStatus.ready TaskStatus.claimed 5 "u1" start start-IsAudited

active_of-save_run_example :
    let db = database TaskStatus.claimed [] in
    Saves (run RunStatus.running) 9 db (save_run (run RunStatus.running) 9 db)
    × (active_of "t1" (save_run (run RunStatus.running) 9 db).1 ≤ 1)
active_of-save_run_example =
    active_of-save_run (run RunStatus.running) 9 (database TaskStatus.claimed []) "t1" (omega arith)

identity-update_run_example :
    let db = database TaskStatus.running (row RunStatus.running ∷ []) in
    map identity (update_run (run RunStatus.succeeded) db).1.runs ≡ map identity db.runs
identity-update_run_example =
    identity-update_run (run RunStatus.succeeded)
      (database TaskStatus.running (row RunStatus.running ∷ []))

reaches_done_example : Steps can_transition TaskStatus.blocked TaskStatus.done
reaches_done_example = reaches_done TaskStatus.blocked refl

-- A cancelled task whose issue turns out to be resolved.
apply-entered_example :
    (contains (entered_from TaskStatus.done) TaskStatus.cancelled ≡ true)
    ⊎ ((true ≡ true)
        × (contains (TaskStatus.failed ∷ TaskStatus.cancelled ∷ []) TaskStatus.cancelled ≡ true)
        × (TaskStatus.done ≡ TaskStatus.done))
unfolding apply find_task ai_factory_lab.Store.Tasks.checked_transition
    ai_factory_lab.Store.Tasks.guarded_write idle_guard ai_factory_lab.Store.Tasks.read_back
    write_transition
apply-entered_example =
    apply-entered 1 true "t1" TaskStatus.cancelled TaskStatus.done 5 "u1"
      (database TaskStatus.cancelled []) refl

-- A policy that lets one service be asked for its health.
abbrev health_policy : OperationalPolicy
health_policy = record {
  enabled = OperationalCapability.service_health ∷ [];
  hosts = "https" ∷ [];
  paths = "/health" ∷ [];
  commands = "get" ∷ [];
  targets = "site" ∷ [];
  docker_targets = [];
}

abbrev health_check : HostOperation
health_check = record { host = "https"; path = "/health"; command = "get"; target = "site" }

permits_sound_example :
    (contains health_policy.enabled OperationalCapability.service_health ≡ true)
    × (OperationalCapability.service_health ≢ OperationalCapability.backup)
    × (IsScratch OperationalCapability.service_health health_check
        ⊎ IsListed health_policy health_check)
unfolding permits ai_factory_lab.Domain.Operational.is_complete_operation
    ai_factory_lab.Domain.Operational.permits_host ai_factory_lab.Domain.Operational.is_listed
permits_sound_example =
    permits_sound health_policy OperationalCapability.service_health health_check refl

apply_transition-atomic_example :
    ((e : Error) × (apply_transition 1 "t1" TaskStatus.ready TaskStatus.claimed 5 "u1" start
        ≡ (err e, start)))
    ⊎ ((found : FactoryTask) × (after : Db) × (find_task "t1" start ≡ some found)
        × (found.status ≡ TaskStatus.ready)
        × (can_persist_transition TaskStatus.ready TaskStatus.claimed ≡ true)
        × (idle_guard 1 "t1" TaskStatus.claimed start ≡ true)
        × (apply_transition 1 "t1" TaskStatus.ready TaskStatus.claimed 5 "u1" start
            ≡ (ok (record found { status = TaskStatus.claimed; updated_at = 5 }), after))
        × (find_task "t1" after
            ≡ some (record found { status = TaskStatus.claimed; updated_at = 5 }))
        × Written "t1" TaskStatus.ready TaskStatus.claimed 5 "u1" start after)
apply_transition-atomic_example =
    apply_transition-atomic 1 "t1" TaskStatus.ready TaskStatus.claimed 5 "u1" start
