-- ===== src/Orchestration/Workers/Bounded.antt =====
-- What every pass of src/factory/orchestration/worker_pool.py keeps.
use ai_factory_lab.Common.{
  ℕ, suc, ◌+◌, ◌≤◌, String, ◌≡◌, refl, ◌∙◌, Bool, true, not, ◌&&◌, List, [], ◌∷◌, ◌++◌, ◌==◌,
  nat_eq, string_eq, length, length-append, ltb, contains, count, count-append, arith, inl, inr,
  Bool-cases,
}
use ai_factory_lab.Domain.Errors.{Result, ok, err}
use ai_factory_lab.Orchestration.Watch.{RuntimeResult}
use ai_factory_lab.Orchestration.Workers.{
  WorkerSession, WorkerPool, new_pool, PoolState, new_pass, fill_from, fill, without, finish,
  cancel_active, session_of, PoolStep, filled, finished, asked_to_stop, Reached, begun, stepped,
}

fill_from-length :
    (max : ℕ) (stops : ℕ → Bool) (n : ℕ) (pending active : List String)
    → length active ≤ max
    → length (fill_from max stops n pending active).1 ≤ max
unfolding fill_from
fill_from-length max stops n [] active h = h
fill_from-length max stops n (id ∷ rest) active h =
    elim (Bool-cases (ltb (length active) max && not (stops n))) [
      | inl room ↦ rw room (
          fill_from-length max stops (suc n) rest (active ++ id ∷ [])
            (ground (arith, room, length-append active (id ∷ []))))
      | inr full ↦ rw full h
    ]

without-length : (id : String) (xs : List String) → length (without id xs) ≤ length xs
unfolding without
without-length id [] = omega arith
without-length id (x ∷ xs) = ground (arith, without-length id xs)

cancel_active-active :
    (has_run : String → Bool) (st : PoolState) → (cancel_active has_run st).active ≡ st.active
unfolding cancel_active
cancel_active-active has_run st = ground arith

module _ (pool : WorkerPool) where
  step_bounded :
      {st next : PoolState}
      → PoolStep pool st next
      → length st.active ≤ pool.max_concurrency
      → length next.active ≤ pool.max_concurrency
  unfolding fill finish
  step_bounded {st} (filled stops) h =
      fill_from-length pool.max_concurrency stops 0 st.pending st.active h
  step_bounded {st} (finished task_id reply error_type held) h =
      omega (arith, h, without-length task_id st.active)
  step_bounded {st} (asked_to_stop has_run) h = rw (cancel_active-active has_run st) h

  Reached-bounded :
      {candidates : List String} {st : PoolState}
      → Reached pool candidates st
      → length st.active ≤ pool.max_concurrency
  unfolding new_pass
  Reached-bounded begun = omega arith
  Reached-bounded (stepped before step) = step_bounded step (Reached-bounded before)

-- A pool that could be made never has more than two workers at once, whatever order they finish in
-- and whenever a stop is asked for.
pub active-bounded :
    (max_concurrency : ℕ) {pool : WorkerPool} {candidates : List String} {st : PoolState}
    → new_pool max_concurrency ≡ ok pool
    → Reached pool candidates st
    → (length st.active ≤ max_concurrency) × (max_concurrency ≤ 2)
unfolding new_pool
active-bounded max_concurrency {pool} made reached =
    let bounded = Reached-bounded pool reached in
    (ground (arith, made, bounded), ground (arith, made))

-- How often a task is named.
abbrev times : String → List String → ℕ
times id = count (λ x. x == id)

abbrev done_times : String → List WorkerSession → ℕ
done_times id = count (λ session. session.task_id == id)

abbrev accounted : String → PoolState → ℕ
accounted id st = times id st.pending + times id st.active + done_times id st.sessions

fill_from-times :
    (max : ℕ) (stops : ℕ → Bool) (n : ℕ) (pending active : List String) (id : String)
    → let after = fill_from max stops n pending active in
      times id after.0 + times id after.1 ≡ times id pending + times id active
unfolding fill_from
fill_from-times max stops n [] active id = omega arith
fill_from-times max stops n (x ∷ rest) active id =
    elim (Bool-cases (ltb (length active) max && not (stops n))) [
      | inl room ↦ rw room (
          ground (
            arith,
            fill_from-times max stops (suc n) rest (active ++ x ∷ []) id,
            count-append (λ y. y == id) active (x ∷ []),
          ))
      | inr full ↦ rw full refl
    ]

without-times :
    (task_id : String) (xs : List String) (id : String)
    → contains xs task_id ≡ true
    → times id (without task_id xs) + times id (task_id ∷ []) ≡ times id xs
unfolding without
without-times task_id [] id h = cc
without-times task_id (x ∷ xs) id h = ground (
  arith,
  h,
  without-times task_id xs id,
  string_eq.beq_iff x task_id,
  string_eq.beq_iff task_id x,
)

session_of-named :
    (task_id : String) (reply : Result RuntimeResult) (error_type id : String)
    → done_times id (session_of task_id reply error_type ∷ []) ≡ times id (task_id ∷ [])
unfolding session_of
session_of-named task_id (ok result) error_type id = refl
session_of-named task_id (err e) error_type id = refl

cancel_active-accounted :
    (has_run : String → Bool) (st : PoolState) (id : String)
    → accounted id (cancel_active has_run st) ≡ accounted id st
unfolding cancel_active
cancel_active-accounted has_run st id = elim (Bool-cases st.cancellation_requested) [
  | inl before ↦ rw before refl
  | inr now ↦ rw now refl
]

module _ (pool : WorkerPool) (id : String) where
  step_accounted :
      {st next : PoolState} → PoolStep pool st next → accounted id next ≡ accounted id st
  unfolding fill finish
  step_accounted {st} (filled stops) =
      omega (arith, fill_from-times pool.max_concurrency stops 0 st.pending st.active id)
  step_accounted {st} (finished task_id reply error_type held) = omega (
    arith,
    without-times task_id st.active id held,
    session_of-named task_id reply error_type id,
    count-append (λ s. s.task_id == id) st.sessions (session_of task_id reply error_type ∷ []),
  )
  step_accounted {st} (asked_to_stop has_run) = cancel_active-accounted has_run st id

  -- At every moment of a pass each candidate is pending, or has one worker, or has one session: it is
  -- named as often in the three together as among the candidates.
  pub candidates-accounted :
      {candidates : List String} {st : PoolState}
      → Reached pool candidates st
      → times id st.pending + times id st.active + done_times id st.sessions ≡ times id candidates
  unfolding new_pass
  candidates-accounted begun = omega arith
  candidates-accounted (stepped before step) = step_accounted step ∙ candidates-accounted before
