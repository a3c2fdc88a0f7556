-- ===== src/Store/Runs.antt =====
-- src/factory/infrastructure/persistence/run_sqlite.py: the run repository.
pub mod Identity
pub mod Codec
use ai_factory_lab.Common.{
  ℕ, zero, suc, String, Bool, true, false, not, ◌&&◌, ◌||◌, Option, none, some, List, [], ◌∷◌, ◌++◌,
  map, ◌==◌, string_eq, nat_eq, option_eq, if◌then◌else◌, select, find, any, contains, update_where,
}
use ai_factory_lab.Domain.Enums.{RunStatus, run_status_eq}
use ai_factory_lab.Domain.Models.{Workspace, FactoryTask, AgentRun, ContextFragment, ContextPack}
use ai_factory_lab.Domain.Errors.{
  Error, Result, ok, err, key_error, duplicate_run, persistence_error, integrity_error,
}
use ai_factory_lab.Store.{Db, RunRow, Transaction, active_statuses, is_active, find_task}
use ai_factory_lab.Store.Order.{order_by}

unfoldable pub get_workspace : String → Db → Option Workspace
get_workspace workspace_id db = find (λ w. w.workspace_id == workspace_id) db.workspaces

-- `_row_to_run` with `_workspace_for`
unfoldable pub read_run : Db → RunRow → AgentRun
read_run db row = record row.run {
  workspace = elim row.workspace_id [ none ↦ none | some id ↦ get_workspace id db ];
}

unfoldable pub workspace_id_of : AgentRun → Option String
workspace_id_of run = elim run.workspace [ none ↦ none | some w ↦ some w.workspace_id ]

-- `_insert_workspace` unless the workspace is stored
unfoldable pub ensure_workspace : Option Workspace → Db → Db
ensure_workspace none db = db
ensure_workspace (some w) db =
    if any (λ v. v.workspace_id == w.workspace_id) db.workspaces
    then db
    else record db { workspaces = db.workspaces ++ w ∷ [] }

unfoldable pub owns_workspace : AgentRun → Db → Bool
owns_workspace run db = elim run.workspace [
  | none ↦ true
  | some w ↦ elim (find (λ r. r.workspace_id == some w.workspace_id) db.runs) [
    | none ↦ true
    | some owner ↦ owner.run.task_id == run.task_id
  ]
]

unfoldable pub run_identity_ok : AgentRun → FactoryTask → Bool
run_identity_ok run owner =
    owner.project_id == run.project_id
    && elim run.workspace [ none ↦ true | some w ↦ owner.target_repository == w.repository_slug ]

unfoldable pub to_row : AgentRun → ℕ → RunRow
to_row run now = record {
  run = record run { workspace = none };
  workspace_id = workspace_id_of run;
  created_at = now;
}

-- The table's constraints on a new row: `run_id` is the primary key, and of the active runs each
-- task and each workspace has one at most.
unfoldable pub breaks_unique : RunRow → RunRow → Bool
breaks_unique new old =
    old.run.run_id == new.run.run_id
    || (is_active new
        && is_active old
        && (old.run.task_id == new.run.task_id
            || elim new.workspace_id [ none ↦ false | some id ↦ old.workspace_id == some id ]))

unfoldable pub insert_run : AgentRun → ℕ → Transaction AgentRun
insert_run run now db =
    if any (breaks_unique (to_row run now)) db.runs then (err (duplicate_run run.run_id), db) else (
      ok run,
      record (ensure_workspace run.workspace db) { runs = db.runs ++ to_row run now ∷ [] },
    )

unfoldable pub save_checked : AgentRun → ℕ → FactoryTask → Transaction AgentRun
save_checked run now owner db =
    if not (run_identity_ok run owner)
    then (err persistence_error, db)
    else if not (owns_workspace run db)
    then (err (duplicate_run run.task_id), db)
    else insert_run run now db

unfoldable pub save_run : AgentRun → ℕ → Transaction AgentRun
save_run run now db = elim (find_task run.task_id db) [
  | none ↦ (err persistence_error, db)
  | some owner ↦ save_checked run now owner db
]

unfoldable pub get_run : String → Db → Option AgentRun
get_run run_id db = elim (find (λ r. r.run.run_id == run_id) db.runs) [
  | none ↦ none
  | some row ↦ some (read_run db row)
]

-- The columns that `update_run` writes.
unfoldable pub write_run : AgentRun → RunRow → RunRow
write_run run row = record row {
  run = record row.run {
    status = run.status;
    summary = run.summary;
    started_at = run.started_at;
    last_heartbeat = run.last_heartbeat;
    agent_heartbeat = run.agent_heartbeat;
    finished_at = run.finished_at;
    gates = run.gates;
    validated_revision = run.validated_revision;
  };
}

fragments_eq : List ContextFragment → List ContextFragment → Bool
fragments_eq [] [] = true
fragments_eq (a ∷ as') (b ∷ bs) =
    a.source == b.source
    && a.type == b.type
    && a.id == b.id
    && a.version == b.version
    && a.content_ref == b.content_ref
    && fragments_eq as' bs
fragments_eq _ _ = false

pack_eq : ContextPack → ContextPack → Bool
pack_eq a b =
    a.version == b.version
    && a.budget == b.budget
    && fragments_eq a.fragments b.fragments
    && a.sha256 == b.sha256
    && a.base_sha256 == b.base_sha256

-- Whether two packs have the same `metadata()`.
unfoldable pub same_metadata : Option ContextPack → Option ContextPack → Bool
unfolding pack_eq fragments_eq
same_metadata none none = true
same_metadata (some a) (some b) = pack_eq a b
same_metadata _ _ = false

unfoldable pub same_run_identity : AgentRun → RunRow → Bool
same_run_identity run row =
    row.run.task_id == run.task_id
    && row.run.project_id == run.project_id
    && row.run.worker_id == run.worker_id
    && row.run.session_id == run.session_id
    && row.workspace_id == workspace_id_of run
    && same_metadata run.context_pack row.run.context_pack

-- Another active row that the active-run indexes would hold against the written one.
unfoldable pub clashes : AgentRun → RunRow → Bool
clashes run row =
    not (row.run.run_id == run.run_id)
    && contains active_statuses run.status
    && is_active row
    && (row.run.task_id == run.task_id
        || elim (workspace_id_of run) [ none ↦ false | some id ↦ row.workspace_id == some id ])

unfoldable pub update_checked : AgentRun → RunRow → Transaction AgentRun
update_checked run existing db =
    if not (same_run_identity run existing)
    then (err persistence_error, db)
    else if any (clashes run) db.runs
    then (err integrity_error, db)
    else (
      ok run,
      record db { runs = update_where (λ r. r.run.run_id == run.run_id) (write_run run) db.runs },
    )

unfoldable pub update_run : AgentRun → Transaction AgentRun
update_run run db = elim (find (λ r. r.run.run_id == run.run_id) db.runs) [
  | none ↦ (err (key_error run.run_id), db)
  | some existing ↦ update_checked run existing db
]

unfoldable pub order_runs : List RunRow → List RunRow
order_runs = order_by (λ r. r.created_at) (λ r. r.run.run_id)

unfoldable pub list_all_runs : Db → List AgentRun
list_all_runs db = map (read_run db) (order_runs db.runs)

unfoldable pub list_runs : String → Db → List AgentRun
list_runs task_id db =
    map (read_run db) (order_runs (select (λ r. r.run.task_id == task_id) db.runs))

unfoldable pub find_active_run : String → Db → Option AgentRun
find_active_run task_id db =
    elim (order_runs (select (λ r. r.run.task_id == task_id && is_active r) db.runs)) [
      | [] ↦ none
      | row ∷ rest ↦ some (read_run db row)
    ]
