-- ===== src/Tests/Materializing.antt =====
-- Work items that become issues.
use ai_factory_lab.Common.{◌≡◌, ◌≤◌, refl, true, none, some, [], ◌∷◌, count}
use ai_factory_lab.Domain.Sprints.{WorkItem}
use ai_factory_lab.Domain.Errors.{ok, err, value_error}
use ai_factory_lab.Orchestration.Backlog.{BacklogService, run_passes, fresh_bench}
use ai_factory_lab.Orchestration.Backlog.Once.{posts-once}
use ai_factory_lab.Store.Links.Growth.{named}

abbrev card : WorkItem
card = record {
  provider = "trello";
  external_id = "c1";
  title = "Add a page";
  body = "";
  target_repository = "acme/site";
  eligible = true;
  dependencies_satisfied = true;
  project_id = "site";
}

-- The provider's answer to the creation is lost.
abbrev losing : BacklogService
losing = record {
  get_item = λ n id. ok card;
  list_items = λ n. ok (card ∷ []);
  find_issue = λ n item. ok none;
  create_issue = λ n item. err value_error;
  registry = none;
}

-- The first pass posts and raises; the second and the third find the write begun.
after_timeouts :
    (run_passes ((losing, none) ∷ (losing, none) ∷ (losing, some "c1") ∷ []) fresh_bench).posted
    ≡ card ∷ []
unfolding run_passes ai_factory_lab.Store.Links.reserve ai_factory_lab.Store.Links.get_issue
    ai_factory_lab.Store.Links.begin_write
after_timeouts = refl

posts-once_example :
    count
      (named "trello" "c1")
      (run_passes ((losing, none) ∷ (losing, none) ∷ []) fresh_bench).posted
    ≤ 1
posts-once_example = posts-once "trello" "c1" ((losing, none) ∷ (losing, none) ∷ [])
