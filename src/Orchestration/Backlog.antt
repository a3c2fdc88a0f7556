-- ===== src/Orchestration/Backlog.antt =====
-- src/factory/orchestration/backlog.py: work items become issues. A pass runs over the links and over
-- the backlog and the provider, whose answers may depend on the moment: each call outside takes the
-- next moment, and `posted` are the work items that an issue was asked to be created for. What was
-- committed before a raise stays committed.
pub mod Once
use ai_factory_lab.Common.{
  ℕ, suc, ◌+◌, String, Bool, true, false, not, ◌&&◌, ◌||◌, Option, none, some, List, [], ◌∷◌, ◌++◌,
  ◌==◌, string_eq, is_some, length, if◌then◌else◌,
}
use ai_factory_lab.Domain.Sprints.{WorkItem, MaterializedIssue}
use ai_factory_lab.Domain.Errors.{Error, Result, ok, err, value_error}
use ai_factory_lab.Domain.Projects.{ProjectProfile, ProjectRegistry, resolve}
use ai_factory_lab.Store.Links.{Links, reserve, get_issue, begin_write, complete, record_rejection}

pub record BacklogSummary : Type 0 where
  pub examined : ℕ
  pub created : ℕ
  pub existing : ℕ
  pub ineligible : ℕ
  pub uncertain : ℕ

pub record BacklogService : Type 0 where
  pub get_item : ℕ → String → Result WorkItem
  pub list_items : ℕ → Result (List WorkItem)
  pub find_issue : ℕ → WorkItem → Result (Option MaterializedIssue)
  pub create_issue : ℕ → WorkItem → Result MaterializedIssue
  pub registry : Option ProjectRegistry

pub record Bench : Type 0 where
  pub links : Links
  pub tick : ℕ
  pub posted : List WorkItem

-- What became of one item.
pub data Fate : Type 0 where
  created existing ineligible uncertain : Fate

abbrev pub Step {ℓ} : Type ℓ → Type ℓ
Step A = Bench → Result A × Bench

abbrev pub later : Bench → Bench
later w = record w { tick = suc w.tick }

is_resolved : Result ProjectProfile → Bool
is_resolved (ok profile) = true
is_resolved (err e) = false

-- `self._registry.resolve`, when there is a registry
unfoldable pub is_routed : Option ProjectRegistry → WorkItem → Bool
unfolding resolve is_resolved
is_routed none item = true
is_routed (some registry) item =
    is_resolved (resolve registry item.project_id (some item.target_repository))

-- `_still_eligible`
unfoldable pub still_eligible : WorkItem → WorkItem → Bool
still_eligible candidate current =
    current.provider == candidate.provider
    && current.external_id == candidate.external_id
    && current.target_repository == candidate.target_repository
    && current.project_id == candidate.project_id
    && current.eligible
    && current.dependencies_satisfied

unfoldable pub reject : WorkItem → Step Fate
reject item w = (ok Fate.ineligible, record w { links = record_rejection item w.links })

-- `self._links.complete`
unfoldable pub complete_as : Fate → WorkItem → MaterializedIssue → Step Fate
complete_as fate item issue w =
    let (done, links) = complete item issue w.links in
    (if done then ok fate else err value_error, record w { links = links })

unfoldable pub count_fate : Fate → BacklogSummary → BacklogSummary
count_fate Fate.created r = record r { created = suc r.created }
count_fate Fate.existing r = record r { existing = suc r.existing }
count_fate Fate.ineligible r = record r { ineligible = suc r.ineligible }
count_fate Fate.uncertain r = record r { uncertain = suc r.uncertain }

abbrev pub examined_only : ℕ → BacklogSummary
examined_only n = record { examined = n; created = 0; existing = 0; ineligible = 0; uncertain = 0 }

module _ (s : BacklogService) where
  unfoldable pub finish_create : WorkItem → Result MaterializedIssue → Step Fate
  unfolding complete_as
  finish_create candidate (err e) w = (err e, w)
  finish_create candidate (ok issue) w = complete_as Fate.created candidate issue w

  -- The remote write.
  unfoldable pub post : WorkItem → WorkItem → Step Fate
  unfolding finish_create
  post candidate current w =
      finish_create candidate (s.create_issue w.tick current)
        (later (record w { posted = w.posted ++ current ∷ [] }))

  unfoldable pub write_current : WorkItem → WorkItem → Step Fate
  unfolding is_routed still_eligible reject post
  write_current candidate current w =
      if not (is_routed s.registry current)
      then reject current w
      else (if not (still_eligible candidate current)
          then (ok Fate.ineligible, w)
          else (let (mine, links) = begin_write candidate w.links in
              let begun = record w { links = links } in
              if mine then post candidate current begun else (ok Fate.uncertain, begun)))

  unfoldable pub reread : WorkItem → Result WorkItem → Step Fate
  unfolding write_current
  reread candidate (err e) w = (err e, w)
  reread candidate (ok current) w = write_current candidate current w

  -- What the provider's search gave.
  unfoldable pub after_search : WorkItem → Result (Option MaterializedIssue) → Step Fate
  unfolding complete_as reread
  after_search candidate (err e) w = (err e, w)
  after_search candidate (ok (some found)) w = complete_as Fate.existing candidate found w
  after_search candidate (ok none) w =
      reread candidate (s.get_item w.tick candidate.external_id) (later w)

  unfoldable pub after_reserve : WorkItem → Result Bool → Step Fate
  unfolding after_search
  after_reserve candidate (err e) w = (err e, w)
  after_reserve candidate (ok fresh) w =
      if is_some (get_issue candidate.provider candidate.external_id w.links)
      then (ok Fate.existing, w)
      else after_search candidate (s.find_issue w.tick candidate) (later w)

  -- The body of the loop.
  unfoldable pub materialize : WorkItem → Step Fate
  unfolding is_routed reject after_reserve
  materialize candidate w =
      if not (is_routed s.registry candidate)
      then reject candidate w
      else (if not candidate.eligible || not candidate.dependencies_satisfied
          then (ok Fate.ineligible, w)
          else (let (reply, links) = reserve candidate w.links in
              after_reserve candidate reply (record w { links = links })))

  unfoldable pub materialize_all : List WorkItem → BacklogSummary → Step BacklogSummary
  unfolding materialize count_fate
  materialize_all [] r w = (ok r, w)
  materialize_all (item ∷ items) r w =
      let (reply, w') = materialize item w in
      elim reply [ err e ↦ (err e, w') | ok fate ↦ materialize_all items (count_fate fate r) w' ]

  unfoldable pub listed : Option String → ℕ → Result (List WorkItem)
  listed none n = s.list_items n
  listed (some external_id) n = elim (s.get_item n external_id) [
    | err e ↦ err e
    | ok item ↦ ok (item ∷ [])
  ]

  -- `reconcile`
  unfoldable pub reconcile_backlog : Option String → Step BacklogSummary
  unfolding listed materialize_all
  reconcile_backlog external_id w = elim (listed external_id w.tick) [
    | err e ↦ (err e, later w)
    | ok items ↦ materialize_all items (examined_only (length items)) (later w)
  ]

-- Calls of `reconcile`, one after the other, each with what it was answered; an exception ends a call.
unfoldable pub run_passes : List (BacklogService × Option String) → Bench → Bench
unfolding reconcile_backlog
run_passes [] w = w
run_passes ((s, external_id) ∷ calls) w = run_passes calls (reconcile_backlog s external_id w).1

abbrev pub fresh_bench : Bench
fresh_bench = record { links = record { rows = []; rejections = [] }; tick = 0; posted = [] }
