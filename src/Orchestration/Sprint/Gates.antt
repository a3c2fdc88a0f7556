-- ===== src/Orchestration/Sprint/Gates.antt =====
-- What any sequence of calls of src/factory/orchestration/sprint.py comes to.
use ai_factory_lab.Common.{String, ◌≡◌, sym, ap, ◌∙◌, false, Option, some, List, [], ◌∷◌}
use ai_factory_lab.Domain.Models.{FactoryTask}
use ai_factory_lab.Domain.Sprints.{SprintManifest, sprint_state_eq}
use ai_factory_lab.Store.{Db, SprintRow}
use ai_factory_lab.Store.Sprints.{find_sprint, is_live_state}
use ai_factory_lab.Store.Sprints.Course.{
  Course_final, Follows, Follows-refl, move-Follows, authorize-Follows,
}
use ai_factory_lab.Store.Sprints.Exclusive.{IsExclusive, move-IsExclusive, authorize-IsExclusive}
use ai_factory_lab.Exec.{World, Exec, pure, ◌>>◌}
use ai_factory_lab.Exec.Keeps.{Keeps, Keeps-bind, Keeps-pure}
use ai_factory_lab.Orchestration.Sprint.Ports.{SprintService}
use ai_factory_lab.Orchestration.Sprint.Plan.{authorize_sprint}
use ai_factory_lab.Orchestration.Sprint.{
  prepare_for_project, observe, cancel, pause, resume, resume_completed,
}
use ai_factory_lab.Orchestration.Sprint.Kept.{
  IsSprintStable, prepare_for_project-Keeps, observe-Keeps, cancel-Keeps, pause-Keeps, resume-Keeps,
  resume_completed-Keeps,
}
use ai_factory_lab.Orchestration.Sprint.Planned.{authorize_sprint-Keeps}

-- The calls of the service that may write.
pub data SprintCall : Type 0 where
  authorize_call : SprintManifest → SprintCall
  prepare_call : String → SprintCall
  observe_call : Option FactoryTask → SprintCall
  cancel_call pause_call resume_call : String → SprintCall
  resume_completed_call : SprintCall

unfoldable pub perform : SprintService → SprintCall → Exec (Unit {0})
perform s (authorize_call manifest) = authorize_sprint s manifest
perform s (prepare_call project_id) = prepare_for_project s project_id >> pure tt
perform s (observe_call task) = observe s task
perform s (cancel_call sprint_id) = cancel sprint_id
perform s (pause_call sprint_id) = pause sprint_id
perform s (resume_call sprint_id) = resume s sprint_id
perform s resume_completed_call = resume_completed s

-- The world after calls, each of which returns or raises.
unfoldable pub perform_all : SprintService → List SprintCall → World → World
unfolding perform
perform_all s [] w = w
perform_all s (call ∷ calls) w = perform_all s calls (perform s call w).1

module _ {P : Db → Type 0} (stable : IsSprintStable P) (s : SprintService) where
  perform-Keeps : (call : SprintCall) → Keeps P (perform s call)
  unfolding perform
  perform-Keeps (authorize_call manifest) = authorize_sprint-Keeps stable s manifest
  perform-Keeps (prepare_call project_id) =
      Keeps-bind _ _ (prepare_for_project-Keeps stable s project_id) (λ selected. Keeps-pure tt)
  perform-Keeps (observe_call task) = observe-Keeps stable s task
  perform-Keeps (cancel_call sprint_id) = cancel-Keeps stable s sprint_id
  perform-Keeps (pause_call sprint_id) = pause-Keeps stable s sprint_id
  perform-Keeps (resume_call sprint_id) = resume-Keeps stable s sprint_id
  perform-Keeps resume_completed_call = resume_completed-Keeps stable s

  perform_all-kept : (calls : List SprintCall) (w : World) → P w.db → P (perform_all s calls w).db
  unfolding perform_all
  perform_all-kept [] w kept = kept
  perform_all-kept (call ∷ calls) w kept =
      perform_all-kept calls (perform s call w).1 ((perform-Keeps call).at w kept)

Follows-IsSprintStable : (before : Db) → IsSprintStable (Follows before)
Follows-IsSprintStable before = record {
  moved = λ sprint_id state position event db. move-Follows sprint_id state position event db;
  authorized = λ manifest db. authorize-Follows manifest db;
}

IsExclusive-IsSprintStable : IsSprintStable IsExclusive
IsExclusive-IsSprintStable = record { moved = move-IsExclusive; authorized = authorize-IsExclusive }

-- Whatever calls are made, in whatever order, and whether each returns or raises: every sprint is
-- still stored under its manifest, where valid moves lead from its state and position.
pub perform_all-Follows :
    (s : SprintService) (calls : List SprintCall) (w : World)
    → Follows w.db (perform_all s calls w).db
perform_all-Follows s calls w =
    perform_all-kept (Follows-IsSprintStable w.db) s calls w (Follows-refl w.db)

-- Whatever calls are made, in whatever order, and whether each returns or raises: no two live sprints
-- have a project in common, and no identifier names two sprints, if that held before.
pub perform_all-IsExclusive :
    (s : SprintService) (calls : List SprintCall) (w : World)
    → IsExclusive w.db
    → IsExclusive (perform_all s calls w).db
perform_all-IsExclusive s calls w unique =
    perform_all-kept IsExclusive-IsSprintStable s calls w unique

-- A row whose three columns are another's is that row.
same_row :
    (a b : SprintRow)
    → a.manifest ≡ b.manifest
    → (b.state ≡ a.state) × (b.position ≡ a.position)
    → a ≡ b
same_row a b manifest (state, position) =
    λ i. record { manifest = manifest i; state = sym state i; position = sym position i }

-- A sprint that is cancelled or complete is stored as it was after any calls.
pub perform_all-final :
    (s : SprintService) (calls : List SprintCall) (w : World) (sprint_id : String) {old : SprintRow}
    → find_sprint sprint_id w.db ≡ some old
    → is_live_state old.state ≡ false
    → find_sprint sprint_id (perform_all s calls w).db ≡ some old
perform_all-final s calls w sprint_id {old} stored final =
    let c = (perform_all-Follows s calls w).continued sprint_id old stored in
    c.stored ∙ ap (λ r. some r) (same_row c.row old c.manifest (Course_final final c.course))
