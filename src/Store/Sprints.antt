-- ===== src/Store/Sprints.antt =====
-- src/factory/infrastructure/persistence/sprint_sqlite.py: authorised sprints and their events.
pub mod Course
pub mod Exclusive
use ai_factory_lab.Common.{
  ℕ, suc, String, Bool, true, false, not, ◌&&◌, ◌||◌, Option, none, some, List, [], ◌∷◌, ◌++◌, map,
  ◌==◌, nat_eq, string_eq, option_eq, select, find, any, count, contains, update_where,
  if◌then◌else◌, last?,
}
use ai_factory_lab.Domain.Sprints.{
  WorkItem, SprintState, SprintStep, SprintManifest, sprint_state_eq, same_manifest, serves,
  shares_project,
}
use ai_factory_lab.Domain.Errors.{Result, ok, err, key_error, value_error}
use ai_factory_lab.Store.{Db, SprintRow, SprintFact, Transaction}
use ai_factory_lab.Store.Order.{order_by}

unfoldable pub is_live_state : SprintState → Bool
is_live_state state = state == SprintState.active || state == SprintState.paused

unfoldable pub is_live : SprintRow → Bool
unfolding is_live_state
is_live row = is_live_state row.state

unfoldable pub is_sprint : String → SprintRow → Bool
is_sprint sprint_id row = row.manifest.sprint_id == sprint_id

unfoldable pub find_sprint : String → Db → Option SprintRow
unfolding is_sprint
find_sprint sprint_id db = find (is_sprint sprint_id) db.sprints

unfoldable pub same_fact : SprintFact → SprintFact → Bool
same_fact a b =
    a.sprint_id == b.sprint_id
    && a.name == b.name
    && a.position == b.position
    && a.occurrence == b.occurrence

-- `_event`: INSERT OR IGNORE
unfoldable pub add_fact : SprintFact → List SprintFact → List SprintFact
unfolding same_fact
add_fact fact facts = if any (same_fact fact) facts then facts else facts ++ fact ∷ []

unfoldable pub insert_sprint : SprintManifest → Db → Db
unfolding add_fact
insert_sprint manifest db = record db {
  sprints =
      db.sprints ++ record { manifest = manifest; state = SprintState.active; position = 0 } ∷ [];
  sprint_facts =
      add_fact
        (record {
          sprint_id = manifest.sprint_id;
          name = "SprintAuthorized";
          position = 0;
          occurrence = none;
        })
        db.sprint_facts;
}

-- A live sprint that has a project in common; the unique index on the first step's project is part
-- of this test.
unfoldable pub is_rival : SprintManifest → SprintRow → Bool
unfolding is_live
is_rival manifest row = is_live row && shares_project manifest row.manifest

-- `authorize`
unfoldable pub authorize : SprintManifest → Transaction (Unit {0})
unfolding insert_sprint
authorize manifest db = elim (find_sprint manifest.sprint_id db) [
  | some row ↦ if same_manifest row.manifest manifest then (ok tt, db) else (err value_error, db)
  | none ↦
      if any (is_rival manifest) db.sprints
      then (err value_error, db)
      else (ok tt, insert_sprint manifest db)
]

-- `ORDER BY rowid DESC` and the first row that fits
unfoldable pub find_last : {A : Type 0} → (A → Bool) → List A → Option A
find_last p [] = none
find_last p (x ∷ xs) = elim (find_last p xs) [
  | some y ↦ some y
  | none ↦ if p x then some x else none
]

unfoldable pub current : Db → Option SprintRow
current db = last? db.sprints

unfoldable pub is_current_for : String → SprintRow → Bool
is_current_for project_id row =
    not (row.state == SprintState.cancelled) && serves project_id row.manifest

unfoldable pub current_for_project : String → Db → Option SprintRow
unfolding find_last is_current_for
current_for_project project_id db = find_last (is_current_for project_id) db.sprints

unfoldable pub step_projects : List SprintRow → List String
step_projects [] = []
step_projects (row ∷ rows) =
    map (λ step. step.item.project_id) row.manifest.steps ++ step_projects rows

unfoldable pub deduplicated : List String → List String
deduplicated [] = []
deduplicated (x ∷ xs) = let rest = deduplicated xs in if contains rest x then rest else x ∷ rest

-- `sorted({...})` over the live sprints
unfoldable pub live_projects : Db → List String
unfolding is_live step_projects deduplicated
live_projects db =
    order_by (λ id. 0) (λ id. id) (deduplicated (step_projects (select is_live db.sprints)))

unfoldable pub has_item : String → String → String → SprintManifest → Bool
has_item project_id provider external_id manifest =
    any
      (λ step.
        step.item.project_id == project_id
        && step.item.provider == provider
        && step.item.external_id == external_id)
      manifest.steps

-- The loop of `find_for_work_item` from what was found so far.
unfoldable pub owner_of :
    (SprintManifest → Bool) → Option String → List SprintRow → Result (Option String)
owner_of has found [] = ok found
owner_of has found (row ∷ rows) =
    if row.state == SprintState.cancelled || not (has row.manifest)
    then owner_of has found rows
    else elim found [
      | none ↦ owner_of has (some row.manifest.sprint_id) rows
      | some id ↦ err value_error
    ]

unfoldable pub find_for_work_item : String → String → String → Db → Result (Option String)
unfolding owner_of has_item
find_for_work_item project_id provider external_id db =
    owner_of (has_item project_id provider external_id) none db.sprints

-- The names of the events that `move` accepts.
pub data SprintEvent : Type 0 where
  selected paused resumed cancelled advanced completed : SprintEvent

unfoldable pub event_name : SprintEvent → String
event_name SprintEvent.selected = "WorkItemSelected"
event_name SprintEvent.paused = "SprintPaused"
event_name SprintEvent.resumed = "SprintResumed"
event_name SprintEvent.cancelled = "SprintCancelled"
event_name SprintEvent.advanced = "SprintAdvanced"
event_name SprintEvent.completed = "SprintCompleted"

-- `valid[event]`
unfoldable pub is_valid_move : SprintEvent → SprintState → ℕ → SprintState → ℕ → Bool
unfolding is_live_state
is_valid_move SprintEvent.selected old_state old_position state position =
    old_state == SprintState.active && state == SprintState.active && position == old_position
is_valid_move SprintEvent.paused old_state old_position state position =
    old_state == SprintState.active && state == SprintState.paused && position == old_position
is_valid_move SprintEvent.resumed old_state old_position state position =
    old_state == SprintState.paused && state == SprintState.active && position == old_position
is_valid_move SprintEvent.cancelled old_state old_position state position =
    is_live_state old_state && state == SprintState.cancelled && position == old_position
is_valid_move SprintEvent.advanced old_state old_position state position =
    old_state == SprintState.active && state == SprintState.active && position == suc old_position
is_valid_move SprintEvent.completed old_state old_position state position =
    old_state == SprintState.active && state == SprintState.complete && position == suc old_position

-- A pause or a resumption is numbered among the sprint's.
unfoldable pub occurrence : SprintEvent → String → Db → Option ℕ
unfolding event_name
occurrence SprintEvent.paused sprint_id db =
    some (suc (count (λ f. f.sprint_id == sprint_id && f.name == "SprintPaused") db.sprint_facts))
occurrence SprintEvent.resumed sprint_id db =
    some (suc (count (λ f. f.sprint_id == sprint_id && f.name == "SprintResumed") db.sprint_facts))
occurrence _ sprint_id db = none

unfoldable pub set_sprint : SprintState → ℕ → SprintRow → SprintRow
set_sprint state position row = record row { state = state; position = position }

unfoldable pub write_sprint : String → SprintState → ℕ → SprintEvent → Db → Db
unfolding set_sprint add_fact event_name occurrence is_sprint
write_sprint sprint_id state position event db = record db {
  sprints = update_where (is_sprint sprint_id) (set_sprint state position) db.sprints;
  sprint_facts =
      add_fact
        (record {
          sprint_id = sprint_id;
          name = event_name event;
          position = position;
          occurrence = occurrence event sprint_id db;
        })
        db.sprint_facts;
}

unfoldable pub move_row :
    String → SprintState → ℕ → SprintEvent → SprintRow → Transaction (Unit {0})
unfolding is_valid_move write_sprint
move_row sprint_id state position event row db =
    if not (is_valid_move event row.state row.position state position)
    then (err value_error, db)
    else (ok tt, write_sprint sprint_id state position event db)

-- `move`
unfoldable pub move : String → SprintState → ℕ → SprintEvent → Transaction (Unit {0})
unfolding move_row
move sprint_id state position event db = elim (find_sprint sprint_id db) [
  | none ↦ (err (key_error sprint_id), db)
  | some row ↦ move_row sprint_id state position event row db
]
