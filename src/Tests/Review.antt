-- ===== src/Tests/Review.antt =====
-- A review of the sample's first task.
use ai_factory_lab.Common.{
  String, refl, true, false, none, some, [], ◌∷◌, arith, ◌==◌, string_eq, if◌then◌else◌,
}
use ai_factory_lab.Domain.Enums.{TaskStatus, RunStatus}
use ai_factory_lab.Domain.Models.{PullRequest, open_state}
use ai_factory_lab.Store.{is_task, find_task}
use ai_factory_lab.Store.Tasks.{history}
use ai_factory_lab.Store.Tasks.Audit.{IsAudited, replay}
use ai_factory_lab.Exec.{World}
use ai_factory_lab.Orchestration.Transitions.Arrived.{Arrived}
use ai_factory_lab.Orchestration.Rework.{ReworkService, request}
use ai_factory_lab.Orchestration.Rework.Requests.{request-Arrived}
use ai_factory_lab.Tests.Sample.{task, row, world, ports}

-- Feedback without outer spaces, and a provider that knows every pull request as open.
abbrev reviewer : ReworkService
reviewer = record {
  strip = λ s. s;
  is_printable = λ c. true;
  is_sensitive = λ s. false;
  state = λ n pr. some open_state;
}

abbrev pull : PullRequest
pull = record {
  repository_slug = "acme/site";
  head_branch = "factory/t1/w1";
  base_branch = "main";
  title = "add a page";
  body = "";
  number = some 7;
  url = none;
  task_id = some "t1";
  run_id = some "r1";
  opened_at = 3;
  merged = false;
  commit_sha = some "c0ffee";
}

abbrev reviewed : World
reviewed =
    let w = world TaskStatus.waiting_human (row RunStatus.succeeded ∷ []) in
    record w { db = record w.db { pulls = pull ∷ [] } }

request-Arrived_example :
    Arrived "t1" TaskStatus.changes_requested
      (record (task "t1" TaskStatus.changes_requested) { updated_at = 104 })
unfolding request ai_factory_lab.Exec.◌>>=◌ ai_factory_lab.Orchestration.Rework.sanitize_feedback
    ai_factory_lab.Orchestration.Rework.text_length ai_factory_lab.Orchestration.Rework.is_clean
    ai_factory_lab.Orchestration.Transitions.require_task find_task
    ai_factory_lab.Orchestration.Rework.review_newest ai_factory_lab.Store.Runs.list_runs
    ai_factory_lab.Store.Runs.order_runs ai_factory_lab.Store.Order.order_by
    ai_factory_lab.Store.Runs.read_run ai_factory_lab.Orchestration.Rework.review
    ai_factory_lab.Store.Runs.get_workspace ai_factory_lab.Orchestration.Rework.reviewed_pull
    ai_factory_lab.Store.Pulls.get_for_run ai_factory_lab.Orchestration.Rework.is_current
    ai_factory_lab.Exec.ask ai_factory_lab.Exec.lift ai_factory_lab.Exec.query
    ai_factory_lab.Exec.raise ai_factory_lab.Exec.transact
    ai_factory_lab.Orchestration.Rework.by_workspace ai_factory_lab.Orchestration.Rework.if_open
    ai_factory_lab.Orchestration.Rework.matches ai_factory_lab.Orchestration.Rework.positive
    ai_factory_lab.Orchestration.Rework.record_request ai_factory_lab.Store.Pulls.find_by_branch
    ai_factory_lab.Store.Tasks.in_status ai_factory_lab.Store.Tasks.read_back
    ai_factory_lab.Store.Tasks.record_transition ai_factory_lab.Store.Tasks.request_rework
    ai_factory_lab.Store.Tasks.set_status ai_factory_lab.Store.Tasks.write_transition is_task
    ai_factory_lab.Store.Tasks.is_reviewable
request-Arrived_example = request-Arrived ports reviewer "t1" "wrong title" reviewed refl

-- The status that each task of `reviewed` was created in.
abbrev origin : String → TaskStatus
origin id = if id == "t1" then TaskStatus.waiting_human else TaskStatus.ready

reviewed-IsAudited : IsAudited origin reviewed.db
unfolding replay history find_task is_task
reviewed-IsAudited = record {
  accounted =
      λ id t stored. ground (arith, stored, string_eq.beq_iff id "t1", string_eq.beq_iff "t1" id);
}
