-- ===== src/Orchestration/Sprint/Paused.antt =====
-- What a pause of src/factory/orchestration/sprint.py stops.
use ai_factory_lab.Common.{
  ℕ, String, ◌≡◌, refl, ap, ◌∙◌, Bool, true, false, Option, none, some, List, [], ◌∷◌, ◌==◌, ◌⊎◌,
  inl, inr, string_eq, nat_eq, arith, Bool-cases, Option-cases, update_where,
}
use ai_factory_lab.Domain.Models.{FactoryTask}
use ai_factory_lab.Domain.Sprints.{SprintState, sprint_state_eq}
use ai_factory_lab.Domain.Errors.{ok, or_raise}
use ai_factory_lab.Store.{Db, SprintRow}
use ai_factory_lab.Store.Sprints.{
  SprintEvent, is_sprint, is_current_for, find_last, current_for_project, find_sprint, set_sprint,
  write_sprint, move, move_row, is_valid_move,
}
use ai_factory_lab.Exec.{World, pure, transact, ◌>>=◌}
use ai_factory_lab.Orchestration.Sprint.Ports.{SprintService}
use ai_factory_lab.Orchestration.Sprint.{
  prepare_row, prepare_for_project, allows_in, allows, pause, require_sprint, move_sprint,
  current_by_id, first_named, currents, live_projects,
}

abbrev is_held : String → Option SprintRow → Bool
is_held sprint_id none = false
is_held sprint_id (some row) = is_sprint sprint_id row

module _ (sprint_id project_id : String) (position : ℕ) where
  abbrev paused_row : SprintRow → SprintRow
  paused_row = set_sprint SprintState.paused position

  abbrev pausing : List SprintRow → List SprintRow
  pausing = update_where (is_sprint sprint_id) paused_row

  abbrev last_of : List SprintRow → Option SprintRow
  last_of = find_last (is_current_for project_id)

  -- What the project's sprint is after the write: the same as before, another one than the paused
  -- one, or a paused row.
  abbrev IsPausing : List SprintRow → Type 0
  IsPausing rows =
      ((last_of (pausing rows) ≡ last_of rows) × (is_held sprint_id (last_of rows) ≡ false))
      ⊎ ((row : SprintRow) × (last_of (pausing rows) ≡ some row) × (row.state ≡ SprintState.paused))

  still_left :
      (row : SprintRow)
      → is_current_for project_id (paused_row row) ≡ false
      → is_current_for project_id row ≡ false
  unfolding is_current_for set_sprint
  still_left row h = ground (arith, h)

  head_pausing :
      (row : SprintRow) (rows : List SprintRow)
      → last_of (pausing rows) ≡ none
      → last_of rows ≡ none
      → IsPausing (row ∷ rows)
  unfolding find_last
  head_pausing row rows after before = elim (Bool-cases (is_sprint sprint_id row)) [
    | inr other ↦ elim (Bool-cases (is_current_for project_id row)) [
      | inl current ↦
          inl (
            rw (after, before, find_last) (rw other refl),
            rw (before, find_last) (rw current other),
          )
      | inr past ↦
          inl (rw (after, before, find_last) (rw other refl), rw (before, find_last) (rw past refl))
    ]
    | inl named ↦ elim (Bool-cases (is_current_for project_id (paused_row row))) [
      | inl current ↦ inr (
        paused_row row,
        rw (after, find_last) (rw named (rw current refl)),
        unfold set_sprint in refl,
      )
      | inr past ↦ inl (
        rw (after, before, find_last) (rw named (rw (past, still_left row past) refl)),
        rw (before, find_last) (rw (still_left row past) refl),
      )
    ]
  ]

  rows-IsPausing : (rows : List SprintRow) → IsPausing rows
  unfolding find_last
  rows-IsPausing [] = inl (refl, refl)
  rows-IsPausing (row ∷ rows) = elim (rows-IsPausing rows) [
    | inr (z, found, paused) ↦ inr (z, rw (found, find_last) refl, paused)
    | inl (same, free) ↦ elim (Option-cases (last_of rows)) [
      | inr (y, found) ↦
          inl (rw (same ∙ found, found, find_last) refl, rw (found, find_last) (rw found at free))
      | inl missing ↦ head_pausing row rows (same ∙ missing) missing
    ]
  ]

first_named-named :
    (sprint_id : String) (found : List (Option SprintRow)) {row : SprintRow}
    → first_named sprint_id found ≡ some row
    → row.manifest.sprint_id ≡ sprint_id
unfolding first_named
first_named-named sprint_id [] h = cc
first_named-named sprint_id (none ∷ rest) h = first_named-named sprint_id rest h
first_named-named sprint_id (some first ∷ rest) {row} h =
    elim (Bool-cases (first.manifest.sprint_id == sprint_id)) [
      | inl named ↦
          ground
            (arith, rw named at h, (string_eq.beq_iff first.manifest.sprint_id sprint_id).0 named)
      | inr other ↦ first_named-named sprint_id rest (rw other at h)
    ]

move_row-written :
    (sprint_id : String) (position : ℕ) (row : SprintRow) (db : Db)
    → (move_row sprint_id SprintState.paused position SprintEvent.paused row db).0 ≡ ok tt
    → (move_row sprint_id SprintState.paused position SprintEvent.paused row db).1
      ≡ write_sprint sprint_id SprintState.paused position SprintEvent.paused db
unfolding move_row
move_row-written sprint_id position row db h =
    elim (Bool-cases
      (is_valid_move SprintEvent.paused row.state row.position SprintState.paused position)) [
        | inr invalid ↦ cc (rw invalid at h)
        | inl valid ↦ rw valid refl
      ]

move-written :
    (sprint_id : String) (position : ℕ) (db : Db)
    → (move sprint_id SprintState.paused position SprintEvent.paused db).0 ≡ ok tt
    → (move sprint_id SprintState.paused position SprintEvent.paused db).1
      ≡ write_sprint sprint_id SprintState.paused position SprintEvent.paused db
unfolding move
move-written sprint_id position db h = elim (Option-cases (find_sprint sprint_id db)) [
  | inl missing ↦ cc (rw (missing, move) at h)
  | inr (row, found) ↦
      rw (found, move) (move_row-written sprint_id position row db (rw (found, move) at h))
]

-- A pause that returns has written PAUSED to the sprint's row.
record Paused (sprint_id : String) (w after : World) : Type 0 where
  position : ℕ
  written : after.db ≡ write_sprint sprint_id SprintState.paused position SprintEvent.paused w.db

pause-Paused :
    (sprint_id : String) (w : World)
    → (pause sprint_id w).0 ≡ ok tt
    → Paused sprint_id w (pause sprint_id w).1
unfolding pause require_sprint ◌>>=◌ move_sprint transact current_by_id
pause-Paused sprint_id w h = elim (Option-cases (current_by_id sprint_id w.db)) [
  | inl missing ↦ cc (rw (missing, or_raise) at h)
  | inr (row, found) ↦ elim (Bool-cases (row.state == SprintState.active)) [
    | inr idle ↦ cc (rw idle at (rw (found, or_raise) at h))
    | inl active ↦
        let named = first_named-named sprint_id (currents (live_projects w.db) w.db) found in
        record {
          position = row.position;
          written =
              rw (found, or_raise)
                (rw active (
                  rw named (
                    move-written sprint_id row.position w.db
                      (rw named at (rw active at (rw (found, or_raise) at h))))));
        }
  ]
]

-- The project's sprint once its identifier was paused.
current-paused :
    (sprint_id project_id : String) (position : ℕ) (db : Db) {row : SprintRow}
    → current_for_project project_id db ≡ some row
    → row.manifest.sprint_id ≡ sprint_id
    → (paused : SprintRow) × (current_for_project project_id
          (write_sprint sprint_id SprintState.paused position SprintEvent.paused db)
        ≡ some paused)
      × (paused.state ≡ SprintState.paused)
unfolding current_for_project write_sprint
current-paused sprint_id project_id position db {row} found named =
    elim (rows-IsPausing sprint_id project_id position db.sprints) [
      | inr paused ↦ paused
      | inl (same, free) ↦
          let held : is_sprint sprint_id row ≡ true =
            unfold is_sprint in (string_eq.beq_iff row.manifest.sprint_id sprint_id).1 named in
          cc (held, rw found at free)
    ]

paused_differs :
    (row : SprintRow) → row.state ≡ SprintState.paused → (row.state == SprintState.active) ≡ false
paused_differs row paused = rw paused refl

-- Once the sprint of a project was paused, nothing is selected for the project and no task of it is
-- allowed: both questions are answered without a write and without asking anything outside.
pub pause-gates :
    (s : SprintService) (sprint_id : String) (task : FactoryTask) (w : World) {row : SprintRow}
    → current_for_project task.project_id w.db ≡ some row
    → row.manifest.sprint_id ≡ sprint_id
    → (pause sprint_id w).0 ≡ ok tt
    → let after = (pause sprint_id w).1 in
      (prepare_for_project s task.project_id after ≡ (ok false, after))
      × (allows s task after ≡ (ok false, after))
unfolding prepare_for_project prepare_row allows allows_in pure ◌>>=◌
pause-gates s sprint_id task w {row} found named returned =
    let p = pause-Paused sprint_id w returned in
    let (row', current, paused) =
      current-paused sprint_id task.project_id p.position w.db found named in
    let here : current_for_project task.project_id (pause sprint_id w).1.db ≡ some row' =
      ap (current_for_project task.project_id) p.written ∙ current in
    (rw here (rw (paused_differs row' paused) refl), rw here (rw (paused_differs row' paused) refl))
