-- ===== src/Tests/Working.antt =====
-- A pass of the worker pool over three tasks.
use ai_factory_lab.Common.{
  ◌+◌, ◌≤◌, String, ◌≡◌, refl, false, some, List, [], ◌∷◌, length, count, ◌==◌, string_eq,
}
use ai_factory_lab.Domain.Enums.{TaskStatus}
use ai_factory_lab.Domain.Errors.{ok}
use ai_factory_lab.Orchestration.Watch.{RuntimeResult}
use ai_factory_lab.Orchestration.Workers.{
  WorkerPool, new_pool, PoolState, new_pass, fill, finish, session_of, filled, finished, begun,
  stepped, Reached,
}
use ai_factory_lab.Orchestration.Workers.Bounded.{active-bounded, candidates-accounted}

abbrev pool : WorkerPool
pool = record { max_concurrency = 2 }

abbrev candidates : List String
candidates = "t1" ∷ "t2" ∷ "t3" ∷ []

abbrev answered : RuntimeResult
answered = record { outcome = "WAITING_HUMAN"; task_status = some TaskStatus.waiting_human }

-- Two workers are started, and the second one is the first to finish.
abbrev started : PoolState
started = fill pool (λ n. false) (new_pass candidates)

abbrev halfway : PoolState
halfway = finish "t2" (session_of "t2" (ok answered) "") started

halfway-Reached : Reached pool candidates halfway
unfolding fill new_pass
halfway-Reached =
    stepped (stepped begun (filled (λ n. false))) (finished "t2" (ok answered) "" refl)

active-bounded_example : (length halfway.active ≤ 2) × (2 ≤ 2)
unfolding new_pool
active-bounded_example = active-bounded 2 {pool = pool} refl halfway-Reached

candidates-accounted_example :
    count (λ x. x == "t2") halfway.pending
      + count (λ x. x == "t2") halfway.active
      + count (λ s. s.task_id == "t2") halfway.sessions
    ≡ 1
candidates-accounted_example = candidates-accounted pool "t2" halfway-Reached

third_waits : halfway.pending ≡ "t3" ∷ []
unfolding finish fill new_pass
third_waits = refl
