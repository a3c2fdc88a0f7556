-- ===== src/Orchestration/Watch.antt =====
-- src/factory/orchestration/watch.py: the worker loop. The runtime, the stop request and the wait are
-- asked at a moment, which goes on with each of them; only a bounded watch is modelled, and its bound
-- is the fuel of the loop. A pass that raises ends the loop with its error. The waits between passes
-- change no state and are left out.
pub mod Counters
use ai_factory_lab.Common.{
  ℕ, zero, suc, String, Bool, true, false, ◌||◌, Option, none, some, List, [], ◌∷◌, ◌==◌, string_eq,
  if◌then◌else◌, contains,
}
use ai_factory_lab.Domain.Enums.{TaskStatus, task_status_eq}
use ai_factory_lab.Domain.Errors.{Result, ok, err}

-- The fields of `RuntimeResult` that the loop reads.
pub record RuntimeResult : Type 0 where
  pub outcome : String
  pub task_status : Option TaskStatus

abbrev pub idle_outcomes : List String
idle_outcomes = "NO_ELIGIBLE_TASK" ∷ "WIP_BUSY" ∷ "BACKOFF_PENDING" ∷ []

pub record WatchOutcome : Type 0 where
  pub iterations : ℕ
  pub processed : ℕ
  pub idle_waits : ℕ
  pub stopped : Bool
  pub last_result : Option RuntimeResult

-- The seams of `FactoryWatcher`, each by the number of passes so far.
pub record Watcher : Type 0 where
  pub should_stop : ℕ → Bool
  pub run_once : ℕ → Result RuntimeResult

unfoldable pub is_idle : RuntimeResult → Bool
is_idle result = contains idle_outcomes result.outcome

unfoldable pub at_human_gate : Option TaskStatus → Bool
at_human_gate none = false
at_human_gate (some status) = status == TaskStatus.waiting_human

-- The result ends the loop.
unfoldable pub is_final : RuntimeResult → Bool
unfolding at_human_gate
is_final result =
    contains ("WAITING_HUMAN" ∷ "SPRINT_PAUSED" ∷ []) result.outcome
    || at_human_gate result.task_status

-- The loop's counters after one more result.
unfoldable pub counted : WatchOutcome → RuntimeResult → WatchOutcome
unfolding is_idle
counted state result =
    if is_idle result
    then record state {
      iterations = suc state.iterations;
      idle_waits = suc state.idle_waits;
      last_result = some result;
    }
    else record state {
      iterations = suc state.iterations;
      processed = suc state.processed;
      last_result = some result;
    }

unfoldable pub stop : WatchOutcome → WatchOutcome
stop state = record state { stopped = true }

-- What the loop does with the reply of a pass, `next` being the loop from its result on.
unfoldable pub after_pass :
    Result RuntimeResult
    → WatchOutcome
    → (RuntimeResult → Result WatchOutcome)
    → Result WatchOutcome
unfolding counted stop is_final
after_pass (err e) state next = err e
after_pass (ok result) state next =
    if is_final result then ok (stop (counted state result)) else next result

-- The `while` loop with `left` passes left.
unfoldable pub loop : Watcher → ℕ → WatchOutcome → Result WatchOutcome
unfolding after_pass counted stop
loop watcher zero state = ok state
loop watcher (suc left) state =
    if watcher.should_stop state.iterations
    then ok (stop state)
    else after_pass (watcher.run_once state.iterations) state
        (λ result. loop watcher left (counted state result))

abbrev pub fresh : WatchOutcome
fresh = record {
  iterations = 0;
  processed = 0;
  idle_waits = 0;
  stopped = false;
  last_result = none;
}

-- `FactoryWatcher.run` for a bounded number of iterations
unfoldable pub run : Watcher → ℕ → Result WatchOutcome
unfolding loop
run watcher max_iterations = loop watcher max_iterations fresh
