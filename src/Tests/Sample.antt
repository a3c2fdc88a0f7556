-- ===== src/Tests/Sample.antt =====
-- A small factory: two tasks, one run, and ports that always give the same kind of answer.
use ai_factory_lab.Common.{◌+◌, String, true, false, none, some, List, [], ◌∷◌}
use ai_factory_lab.Domain.Enums.{TaskStatus, RunStatus, TaskKind, QualityGateStatus, AgentKind}
use ai_factory_lab.Domain.Models.{Workspace, FactoryTask, AgentRun, ContextPack, QualityGateSpec}
use ai_factory_lab.Domain.Projects.{ProjectProfile, ProjectRegistry}
use ai_factory_lab.Domain.Errors.{ok}
use ai_factory_lab.Store.{Db, RunRow}
use ai_factory_lab.Exec.{Ports, World}
use ai_factory_lab.Orchestration.Dispatch.{DispatchService}
use ai_factory_lab.Orchestration.Tracking.{TrackingService}
use ai_factory_lab.Orchestration.Recovery.{RecoveryPolicy}
use ai_factory_lab.Orchestration.Reconciliation.{ReconciliationService}

abbrev pub task : String → TaskStatus → FactoryTask
task id status = record {
  title = "add a page";
  target_repository = "acme/site";
  source = none;
  task_id = id;
  body = "";
  status = status;
  labels = [];
  kind = TaskKind.code;
  blocked_reason = none;
  created_at = 1;
  updated_at = 1;
  project_id = "site";
}

abbrev pub workspace : Workspace
workspace = record {
  workspace_id = "w1";
  repository_slug = "acme/site";
  branch = "factory/t1/w1";
  path = "/work/w1";
  kind = TaskKind.code;
  created_at = 1;
}

abbrev pub pack : ContextPack
pack = record { version = 1; budget = 100; fragments = []; sha256 = "a0"; base_sha256 = none }

abbrev pub run : RunStatus → AgentRun
run status = record {
  task_id = "t1";
  adapter = AgentKind.codex;
  run_id = "r1";
  status = status;
  workspace = some workspace;
  summary = none;
  started_at = some 1;
  last_heartbeat = none;
  agent_heartbeat = none;
  finished_at = none;
  gates = [];
  validated_revision = none;
  context_pack = some pack;
  project_id = "site";
  worker_id = none;
  session_id = none;
}

abbrev pub row : RunStatus → RunRow
row status = record {
  run = record (run status) { workspace = none };
  workspace_id = some "w1";
  created_at = 2;
}

-- The tasks t1 and t2 and the runs of t1.
abbrev pub database : TaskStatus → List RunRow → Db
database status runs = record {
  tasks = task "t1" status ∷ task "t2" TaskStatus.ready ∷ [];
  transitions = [];
  rework = [];
  workspaces = workspace ∷ [];
  runs = runs;
  pulls = [];
  sprints = [];
  sprint_facts = [];
}

abbrev pub world : TaskStatus → List RunRow → World
world status runs = record { db = database status runs; tick = 3; effects = [] }

abbrev pub spec : QualityGateSpec
spec = record { name = "tests"; argv = "make" ∷ "test" ∷ []; required = true }

-- Every port answers: runs succeed, gates pass, and every workspace is at revision `c0ffee`.
abbrev pub ports : Ports
ports = record {
  now = λ n. 100 + n;
  uuid = λ n. "fresh";
  max_active_claims = 1;
  adapter_kind = AgentKind.codex;
  start = λ n t w c. some (run RunStatus.running);
  collect = λ n r. some (record r { status = RunStatus.succeeded });
  read_agent_heartbeat = none;
  build_context = λ n t feedback previous. ok pack;
  prepare = λ n t w. ok w;
  repair = some (λ n t w. ok w);
  fingerprint = some (λ n w. some "c0ffee");
  run_gate = some (λ n s w. ok (record {
    name = s.name;
    status = QualityGateStatus.passed;
    detail = some "exit_code=0";
    required = s.required;
  }));
  find_open_pull_request = none;
  accept_operational = none;
}

-- The same ports with an engine that cannot be collected.
abbrev pub silent_ports : Ports
silent_ports = record ports { collect = λ n r. none }

abbrev pub tracking : TrackingService
tracking = record {
  gate_specs = spec ∷ [];
  task_gate_specs = [];
  registry = none;
  has_pull_requests = false;
  base_branch = "main";
  heartbeat_interval = 180;
  external_ref = λ source. source.provider;
}

abbrev pub dispatcher : DispatchService
dispatcher = record {
  workspace_root = "/work/";
  worker_id = some "worker-1";
  session_id = some "session-1";
}

abbrev pub policy : RecoveryPolicy
policy = record {
  correction_limit = 2;
  run_retry_limit = 3;
  base_backoff_seconds = 60;
  max_backoff_seconds = 300;
}

abbrev pub reconciler : ReconciliationService
reconciler = record { tracking = tracking; allows = none; registry = none }

abbrev pub profile : ProjectProfile
profile = record {
  project_id = "site";
  repository_slug = "acme/site";
  base_ref = "main";
  gates = spec ∷ [];
}

abbrev pub registry : ProjectRegistry
registry = record { profiles = profile ∷ [] }
