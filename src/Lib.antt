-- ===== src/Lib.antt =====
-- The control plane of the AI factory (src/factory): tasks come in, are claimed, dispatched to a
-- coding agent, validated by quality gates, and driven along a lifecycle that a SQLite file stores.
--
-- Parts, and the files that model them:
-- Domain/: the data of src/factory/domain. Enums, Models and Errors hold the enumerations, the
--   records and the exceptions; Lifecycle is task_lifecycle.py; Projects is projects.py; Operational
--   is the policy of operational.py.
-- Store/: the repositories of src/factory/infrastructure/persistence. Store.antt has the tables as
--   lists of rows in insertion order; Store/Tasks is sqlite.py, Store/Runs is run_sqlite.py (its JSON in Store/Runs/Codec) with the
--   unique indexes of schema.py, Store/Pulls is pr_sqlite.py, Store/Sprints is sprint_sqlite.py, Store/Links is
--   backlog_sqlite.py. Store/Stable is the interface that a
--   property of the database fills to be carried through every service. A method is one transaction:
--   a function of the whole database that gives it back unchanged where it raises.
-- Exec/: the actions that the services are written in. An action takes the world, which is the
--   database, the moment and the calls that were made outside, and gives a result or an error with the
--   world that it leaves; what was committed before a raise stays. The clock, fresh identifiers,
--   adapters, gate runners, workspaces and providers are ports, each a function of the moment, so that
--   a port may answer differently each time; a theorem holds for all of them.
-- Orchestration/: the services of src/factory/orchestration. Transitions is machine.py and
--   transitions.py, Dispatch is dispatch.py, Tracking and Tracking/Refresh are tracking.py, Recovery,
--   Retry, Watch, Reconciliation, Rework, Publication (with Texts), Intake and Sprint are the files of those
--   names; Workers is worker_pool.py, whose scheduler is a relation;
--   Backlog is backlog.py, over its own tables. Dispatch and Tracking change tasks
--   through Transitions, and that through Store/Tasks; Reconciliation runs Tracking.
-- Tests/: concrete runs.
-- A function keeps the source's name; a long method is split into helpers in the order of its text.
--
-- Times and delays are natural numbers of seconds. A history is read in insertion order, which is the
-- order by time as long as the clock does not go back. Identifiers are texts. A set is a list.
-- The watcher's loop runs on its own bound, so the bound is fuel enough; every other loop runs over a
-- list.
--
-- Not modelled: the one-shot runtime, a watch without a bound, feedback to the backlog, the authorised
-- recoveries, status views, migrations, the command line, and everything that talks
-- to a process or a network. The regular expression on a gate's detail is read over ASCII digits, and
-- `strip` over ASCII white space. The interleaving of two processes is that of whole transactions.
pub mod Common
pub mod Domain
pub mod Store
pub mod Exec
pub mod Orchestration
pub mod Tests
