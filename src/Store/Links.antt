-- ===== src/Store/Links.antt =====
-- src/factory/infrastructure/persistence/backlog_sqlite.py: the issue that each work item has become,
-- over the tables `backlog_links` and `routing_rejections`. `reconciliation_origin` is left out, and a
-- materialized row without its issue, which no write leaves, has none.
pub mod Growth
use ai_factory_lab.Common.{
  ℕ, String, Bool, true, false, not, ◌&&◌, Option, none, some, List, [], ◌∷◌, ◌++◌, ◌==◌, nat_eq,
  string_eq, option_eq, find, any, count, update_where, if◌then◌else◌,
}
use ai_factory_lab.Domain.Sprints.{WorkItem, MaterializedIssue}
use ai_factory_lab.Domain.Errors.{Result, ok, err, value_error}
use ai_factory_lab.Orchestration.Texts.{take_text}

pub data LinkState : Type 0 where
  reserved posting materialized : LinkState

pub record LinkRow : Type 0 where
  pub provider : String
  pub external_id : String
  pub repository_slug : String
  pub project_id : String
  pub state : LinkState
  pub issue_number : Option ℕ
  pub issue_url : Option String

pub record Rejection : Type 0 where
  pub provider : String
  pub external_id : String
  pub project_id : String

pub record Links : Type 0 where
  pub rows : List LinkRow
  pub rejections : List Rejection

unfoldable pub is_reserved : LinkState → Bool
is_reserved LinkState.reserved = true
is_reserved _ = false

unfoldable pub is_materialized : LinkState → Bool
is_materialized LinkState.materialized = true
is_materialized _ = false

-- The primary key.
unfoldable pub is_link : String → String → LinkRow → Bool
is_link provider external_id row = row.provider == provider && row.external_id == external_id

unfoldable pub find_link : String → String → Links → Option LinkRow
find_link provider external_id links = find (is_link provider external_id) links.rows

-- `row["repository_slug"] == item.target_repository and row["project_id"] == item.project_id`
unfoldable pub is_destined : WorkItem → LinkRow → Bool
is_destined item row =
    row.repository_slug == item.target_repository && row.project_id == item.project_id

abbrev pub new_link : WorkItem → LinkRow
new_link item = record {
  provider = item.provider;
  external_id = item.external_id;
  repository_slug = item.target_repository;
  project_id = item.project_id;
  state = LinkState.reserved;
  issue_number = none;
  issue_url = none;
}

-- INSERT OR IGNORE
unfoldable pub insert_link : WorkItem → List LinkRow → List LinkRow
unfolding is_link
insert_link item rows =
    if any (is_link item.provider item.external_id) rows then rows else rows ++ new_link item ∷ []

-- `reserve`; an identity that changed rolls nothing back, since the row was there before.
unfoldable pub check_destined : WorkItem → Option LinkRow → Result Bool
unfolding is_destined
check_destined item none = err value_error
check_destined item (some row) = if is_destined item row then ok true else err value_error

unfoldable pub reserve : WorkItem → Links → Result Bool × Links
unfolding insert_link find_link check_destined
reserve item links =
    let next = record links { rows = insert_link item links.rows } in
    (check_destined item (find_link item.provider item.external_id next), next)

unfoldable pub is_open_for : WorkItem → LinkRow → Bool
unfolding is_link is_destined is_reserved
is_open_for item row =
    is_link item.provider item.external_id row && is_destined item row && is_reserved row.state

abbrev pub to_posting : LinkRow → LinkRow
to_posting row = record row { state = LinkState.posting }

-- `begin_write`: the compare-and-swap before the remote write.
unfoldable pub begin_write : WorkItem → Links → Bool × Links
unfolding is_open_for
begin_write item links = (
  count (is_open_for item) links.rows == 1,
  record links { rows = update_where (is_open_for item) to_posting links.rows },
)

unfoldable pub issue_in : String → Option ℕ → Option String → Option MaterializedIssue
issue_in slug (some number) (some url) =
    some (record { repository_slug = slug; number = number; url = url })
issue_in slug _ _ = none

unfoldable pub issue_of : Option LinkRow → Option MaterializedIssue
unfolding is_materialized issue_in
issue_of none = none
issue_of (some row) =
    if is_materialized row.state
    then issue_in row.repository_slug row.issue_number row.issue_url
    else none

unfoldable pub get_issue : String → String → Links → Option MaterializedIssue
unfolding find_link issue_of
get_issue provider external_id links = issue_of (find_link provider external_id links)

unfoldable pub is_unlinked : WorkItem → LinkRow → Bool
unfolding is_link is_destined is_materialized
is_unlinked item row =
    is_link item.provider item.external_id row
    && is_destined item row
    && not (is_materialized row.state)

abbrev pub to_linked : MaterializedIssue → LinkRow → LinkRow
to_linked issue row = record row {
  state = LinkState.materialized;
  issue_number = some issue.number;
  issue_url = some issue.url;
}

-- UNIQUE (repository_slug, issue_number), on another row than the item's
unfoldable pub breaks_link : WorkItem → MaterializedIssue → LinkRow → Bool
unfolding is_link
breaks_link item issue row =
    not (is_link item.provider item.external_id row)
    && row.repository_slug == item.target_repository
    && row.issue_number == some issue.number

unfoldable pub is_same_link : WorkItem → MaterializedIssue → Option LinkRow → Bool
unfolding is_destined
is_same_link item issue none = false
is_same_link item issue (some row) =
    row.issue_number == some issue.number && row.issue_url == some issue.url && is_destined item row

-- `complete`: the update, or the check that the link is there already.
unfoldable pub link_issue : WorkItem → MaterializedIssue → Links → Bool × Links
unfolding is_unlinked breaks_link is_same_link find_link
link_issue item issue links =
    if any (is_unlinked item) links.rows
    then (if any (breaks_link item issue) links.rows then (false, links) else (
      true,
      record links { rows = update_where (is_unlinked item) (to_linked issue) links.rows },
    ))
    else (is_same_link item issue (find_link item.provider item.external_id links), links)

unfoldable pub complete : WorkItem → MaterializedIssue → Links → Bool × Links
unfolding link_issue
complete item issue links =
    if issue.repository_slug == item.target_repository && not (issue.number == 0)
    then link_issue item issue links
    else (false, links)

unfoldable pub same_rejection : Rejection → Rejection → Bool
same_rejection a b =
    a.provider == b.provider && a.external_id == b.external_id && a.project_id == b.project_id

-- INSERT OR IGNORE
unfoldable pub record_rejection : WorkItem → Links → Links
unfolding same_rejection take_text
record_rejection item links =
    let rejection : Rejection = record {
      provider = item.provider;
      external_id = item.external_id;
      project_id = take_text 64 item.project_id;
    } in
    if any (same_rejection rejection) links.rejections
    then links
    else record links { rejections = links.rejections ++ rejection ∷ [] }
