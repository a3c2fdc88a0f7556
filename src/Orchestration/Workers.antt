-- ===== src/Orchestration/Workers.antt =====
-- src/factory/orchestration/worker_pool.py: one pass of the worker pool. A worker is its task; the
-- pool's scheduler is a relation, since the futures complete in any order.
pub mod Bounded
use ai_factory_lab.Common.{
  ℕ, suc, String, ◌≡◌, Bool, true, false, not, ◌&&◌, ◌||◌, Option, none, some, List, [], ◌∷◌, ◌++◌,
  ◌==◌, nat_eq, string_eq, if◌then◌else◌, length, ltb, contains, select,
}
use ai_factory_lab.Domain.Errors.{Result, ok, err, value_error}
use ai_factory_lab.Orchestration.Watch.{RuntimeResult}

pub record WorkerSession : Type 0 where
  pub task_id : String
  pub result : Option RuntimeResult
  pub error_type : Option String

pub record WorkerPool : Type 0 where
  pub max_concurrency : ℕ

-- `__init__`
unfoldable pub new_pool : ℕ → Result WorkerPool
new_pool max_concurrency =
    if max_concurrency == 0 || ltb 2 max_concurrency
    then err value_error
    else ok (record { max_concurrency = max_concurrency })

-- The locals of `run_pass`; `cancelled` are the tasks whose runs were asked to stop.
pub record PoolState : Type 0 where
  pub pending : List String
  pub active : List String
  pub sessions : List WorkerSession
  pub cancellation_requested : Bool
  pub cancelled : List String

unfoldable pub new_pass : List String → PoolState
new_pass candidates = record {
  pending = candidates;
  active = [];
  sessions = [];
  cancellation_requested = false;
  cancelled = [];
}

-- The inner loop: candidates are submitted while there is room. `stops` answers `should_stop`, the
-- n-th time that it is asked.
unfoldable pub fill_from :
    ℕ → (ℕ → Bool) → ℕ → List String → List String → List String × List String
fill_from max stops n [] active = ([], active)
fill_from max stops n (id ∷ rest) active =
    let more = fill_from max stops (suc n) rest (active ++ id ∷ []) in
    if ltb (length active) max && not (stops n) then more else (id ∷ rest, active)

unfoldable pub fill : WorkerPool → (ℕ → Bool) → PoolState → PoolState
unfolding fill_from
fill pool stops st =
    let (pending, active) = fill_from pool.max_concurrency stops 0 st.pending st.active in
    record st { pending = pending; active = active }

-- `active.pop`
unfoldable pub without : String → List String → List String
without id [] = []
without id (x ∷ xs) = if x == id then xs else x ∷ without id xs

-- What the worker came to: a result, or the name of the exception's type.
unfoldable pub session_of : String → Result RuntimeResult → String → WorkerSession
session_of task_id (ok result) error_type = record {
  task_id = task_id;
  result = some result;
  error_type = none;
}
session_of task_id (err e) error_type = record {
  task_id = task_id;
  result = none;
  error_type = some error_type;
}

-- The body of the loop over `done`.
unfoldable pub finish : String → WorkerSession → PoolState → PoolState
unfolding without
finish task_id session st = record st {
  active = without task_id st.active;
  sessions = st.sessions ++ session ∷ [];
}

-- `_cancel_active`: the workers that have an active run; a cancellation that fails is logged.
unfoldable pub cancel_active : (String → Bool) → PoolState → PoolState
cancel_active has_run st = if st.cancellation_requested then st else record st {
  cancellation_requested = true;
  cancelled = st.cancelled ++ select has_run st.active;
}

-- What a pass does between two waits.
pub data PoolStep (pool : WorkerPool) (st : PoolState) : PoolState → Type 0 where
  filled : (stops : ℕ → Bool) → PoolStep pool st (fill pool stops st)
  finished :
      (task_id : String) (reply : Result RuntimeResult) (error_type : String)
      → contains st.active task_id ≡ true
      → PoolStep pool st (finish task_id (session_of task_id reply error_type) st)
  asked_to_stop : (has_run : String → Bool) → PoolStep pool st (cancel_active has_run st)

-- The states that a pass over candidates goes through.
pub data Reached (pool : WorkerPool) (candidates : List String) : PoolState → Type 0 where
  begun : Reached pool candidates (new_pass candidates)
  stepped :
      {st next : PoolState}
      → Reached pool candidates st
      → PoolStep pool st next
      → Reached pool candidates next
