-- ===== src/Tests/Sprinting.antt =====
-- A sprint of one work item.
use ai_factory_lab.Common.{◌≡◌, refl, true, false, none, some, [], ◌∷◌}
use ai_factory_lab.Domain.Enums.{TaskStatus}
use ai_factory_lab.Domain.Sprints.{WorkItem, SprintManifest, SprintState, sprint_state_rank}
use ai_factory_lab.Domain.Errors.{ok}
use ai_factory_lab.Store.{SprintRow}
use ai_factory_lab.Store.Sprints.{find_sprint}
use ai_factory_lab.Store.Sprints.Course.{Follows}
use ai_factory_lab.Store.Sprints.Exclusive.{IsExclusive, are_exclusive}
use ai_factory_lab.Exec.{World}
use ai_factory_lab.Orchestration.Sprint.Ports.{SprintService}
use ai_factory_lab.Orchestration.Sprint.{prepare_for_project, allows, pause}
use ai_factory_lab.Orchestration.Sprint.Paused.{pause-gates}
use ai_factory_lab.Orchestration.Sprint.Gates.{
  prepare_call, pause_call, cancel_call, perform_all, perform_all-Follows, perform_all-IsExclusive,
  perform_all-final,
}
use ai_factory_lab.Tests.Sample.{task, world}

abbrev item : WorkItem
item = record {
  provider = "trello";
  external_id = "c1";
  title = "add a page";
  body = "";
  target_repository = "acme/site";
  eligible = true;
  dependencies_satisfied = true;
  project_id = "site";
}

abbrev manifest : SprintManifest
manifest = record { sprint_id = "s1"; steps = record { item = item; dependencies = [] } ∷ [] }

-- The backlog is as the manifest says, and the item has an issue.
abbrev service : SprintService
service = record {
  get_item = λ n id. ok item;
  get_issue =
      λ n provider id. some (record { repository_slug = "acme/site"; number = 1; url = "" });
  materialize = λ n id. ok tt;
  record_rejection = λ n i reason. ok tt;
  is_completed = none;
  registry = none;
}

abbrev sprinting : SprintState → World
sprinting state =
    let w = world TaskStatus.ready [] in
    record w {
      db = record w.db {
        sprints = record { manifest = manifest; state = state; position = 0 } ∷ [];
      };
    }

sprinting-IsExclusive : IsExclusive (sprinting SprintState.active).db
unfolding are_exclusive
sprinting-IsExclusive = record { exclusive = refl }

perform_all-Follows_example :
    let w = sprinting SprintState.active in
    Follows w.db (perform_all service (prepare_call "site" ∷ pause_call "s1" ∷ []) w).db
perform_all-Follows_example =
    perform_all-Follows service (prepare_call "site" ∷ pause_call "s1" ∷ [])
      (sprinting SprintState.active)

perform_all-IsExclusive_example :
    let w = sprinting SprintState.active in
    IsExclusive (perform_all service (prepare_call "site" ∷ cancel_call "s1" ∷ []) w).db
perform_all-IsExclusive_example =
    perform_all-IsExclusive service (prepare_call "site" ∷ cancel_call "s1" ∷ [])
      (sprinting SprintState.active) sprinting-IsExclusive

perform_all-final_example :
    let w = sprinting SprintState.cancelled in
    find_sprint "s1" (perform_all service (prepare_call "site" ∷ pause_call "s1" ∷ []) w).db
    ≡ some (record { manifest = manifest; state = SprintState.cancelled; position = 0 })
unfolding find_sprint ai_factory_lab.Store.Sprints.is_live_state
perform_all-final_example =
    perform_all-final service (prepare_call "site" ∷ pause_call "s1" ∷ [])
      (sprinting SprintState.cancelled) "s1" refl refl

-- A sprint that was active is not selected from once it is paused.
paused_run :
    let w = perform_all service (pause_call "s1" ∷ []) (sprinting SprintState.active) in
    (prepare_for_project service "site" w).0 ≡ ok false
unfolding prepare_for_project ai_factory_lab.Exec.◌>>=◌
    ai_factory_lab.Orchestration.Sprint.prepare_row ai_factory_lab.Store.Sprints.current_for_project
    perform_all ai_factory_lab.Orchestration.Sprint.pause
    ai_factory_lab.Orchestration.Sprint.require_sprint
    ai_factory_lab.Orchestration.Sprint.current_by_id
    ai_factory_lab.Orchestration.Sprint.first_named ai_factory_lab.Orchestration.Sprint.currents
    ai_factory_lab.Store.Sprints.live_projects ai_factory_lab.Store.Order.order_by
    ai_factory_lab.Domain.Sprints.serves ai_factory_lab.Orchestration.Sprint.move_sprint
    ai_factory_lab.Store.Sprints.move find_sprint
paused_run = refl

pause-gates_example :
    let after = (pause "s1" (sprinting SprintState.active)).1 in
    (prepare_for_project service "site" after ≡ (ok false, after))
    × (allows service (task "t1" TaskStatus.ready) after ≡ (ok false, after))
unfolding ai_factory_lab.Store.Sprints.current_for_project ai_factory_lab.Domain.Sprints.serves
    pause ai_factory_lab.Exec.◌>>=◌ ai_factory_lab.Orchestration.Sprint.require_sprint
    ai_factory_lab.Orchestration.Sprint.current_by_id
    ai_factory_lab.Orchestration.Sprint.first_named ai_factory_lab.Orchestration.Sprint.currents
    ai_factory_lab.Store.Sprints.live_projects ai_factory_lab.Store.Order.order_by
    ai_factory_lab.Orchestration.Sprint.move_sprint ai_factory_lab.Store.Sprints.move find_sprint
pause-gates_example =
    pause-gates service "s1" (task "t1" TaskStatus.ready) (sprinting SprintState.active) refl refl
      refl
