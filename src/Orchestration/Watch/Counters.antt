-- ===== src/Orchestration/Watch/Counters.antt =====
-- The counters of `FactoryWatcher.run` in src/factory/orchestration/watch.py.
use ai_factory_lab.Common.{
  ℕ, zero, suc, ◌+◌, ◌≡◌, refl, ◌∙◌, true, false, Bool-cases, inl, inr, ◌⊎◌, arith, ◌<◌, ap, Option,
  some, none, string_eq, ◌==◌,
}
use ai_factory_lab.Domain.Enums.{TaskStatus, task_status_eq}
use ai_factory_lab.Domain.Errors.{Error, Result, Result-cases, ok, err}
use ai_factory_lab.Orchestration.Watch.{
  Watcher, WatchOutcome, is_final, counted, stop, loop, run, fresh, is_idle, RuntimeResult,
  at_human_gate, after_pass,
}

-- The counters agree: every pass was either idle or processed something.
pub record IsBalanced (state : WatchOutcome) : Type 0 where
  pub balanced : state.iterations ≡ state.processed + state.idle_waits

counted-IsBalanced :
    (state : WatchOutcome) (result : RuntimeResult)
    → IsBalanced state
    → IsBalanced (counted state result)
unfolding counted
counted-IsBalanced state result before = elim (Bool-cases (is_idle result)) [
  | inl idle ↦ rw idle (record { balanced = omega (arith, before.balanced) })
  | inr busy ↦ rw busy (record { balanced = omega (arith, before.balanced) })
]

counted-iterations :
    (state : WatchOutcome) (result : RuntimeResult)
    → (counted state result).iterations ≡ suc state.iterations
unfolding counted
counted-iterations state result = ground arith

counted-stopped :
    (state : WatchOutcome) (result : RuntimeResult) → (counted state result).stopped ≡ state.stopped
unfolding counted
counted-stopped state result = ground arith

-- The results that end a watch: a human or a paused sprint is waited for.
abbrev pub IsGate : RuntimeResult → Type 0
IsGate result =
    (result.outcome ≡ "WAITING_HUMAN")
    ⊎ ((result.outcome ≡ "SPRINT_PAUSED") ⊎ (result.task_status ≡ some TaskStatus.waiting_human))

gate_status :
    (status : Option TaskStatus)
    → at_human_gate status ≡ true
    → status ≡ some TaskStatus.waiting_human
unfolding at_human_gate
gate_status none h = cc
gate_status (some status) h =
    ap (λ s. some s) ((task_status_eq.beq_iff status TaskStatus.waiting_human).0 h)

is_final-IsGate : (result : RuntimeResult) → is_final result ≡ true → IsGate result
unfolding is_final
is_final-IsGate result h = elim (Bool-cases (result.outcome == "WAITING_HUMAN")) [
  | inl waiting ↦ inl ((string_eq.beq_iff result.outcome "WAITING_HUMAN").0 waiting)
  | inr other ↦ elim (Bool-cases (result.outcome == "SPRINT_PAUSED")) [
    | inl paused ↦ inr (inl ((string_eq.beq_iff result.outcome "SPRINT_PAUSED").0 paused))
    | inr neither ↦ inr (inr (gate_status result.task_status (ground (arith, h, other, neither))))
  ]
]

-- How a watch of at most `most` passes ends: a pass raised; all passes were made; the stop request
-- was seen before a pass; or the last pass gave a result that ends the watch.
pub data Ended (watcher : Watcher) (most : ℕ) : Result WatchOutcome → Type 0 where
  raised : (n : ℕ) (e : Error) → n < most → watcher.run_once n ≡ err e → Ended watcher most (err e)
  completed :
      (final : WatchOutcome)
      → IsBalanced final
      → final.stopped ≡ false
      → final.iterations ≡ most
      → Ended watcher most (ok final)
  asked :
      (final : WatchOutcome)
      → IsBalanced final
      → final.stopped ≡ true
      → final.iterations < most
      → watcher.should_stop final.iterations ≡ true
      → Ended watcher most (ok final)
  gated :
      (n : ℕ) (result : RuntimeResult) (final : WatchOutcome)
      → IsBalanced final
      → final.stopped ≡ true
      → final.iterations ≡ suc n
      → n < most
      → watcher.run_once n ≡ ok result
      → final.last_result ≡ some result
      → IsGate result
      → Ended watcher most (ok final)

counted-last :
    (state : WatchOutcome) (result : RuntimeResult)
    → (counted state result).last_result ≡ some result
unfolding counted
counted-last state result = ground arith

module _ (watcher : Watcher) (most : ℕ) where
  gate-Ended :
      (state : WatchOutcome) (result : RuntimeResult)
      → IsBalanced state
      → state.iterations < most
      → watcher.run_once state.iterations ≡ ok result
      → is_final result ≡ true
      → Ended watcher most (ok (stop (counted state result)))
  unfolding stop
  gate-Ended state result before within gave final =
      gated state.iterations result _
        (record { balanced = (counted-IsBalanced state result before).balanced }) refl
        (counted-iterations state result) within gave (counted-last state result)
        (is_final-IsGate result final)

  loop-Ended :
      (left : ℕ) (state : WatchOutcome)
      → IsBalanced state
      → state.stopped ≡ false
      → state.iterations + left ≡ most
      → Ended watcher most (loop watcher left state)
  unfolding loop
  loop-Ended zero state before going room = completed state before going (omega (arith, room))
  loop-Ended (suc left) state before going room =
      let within : state.iterations < most = omega (arith, room) in
      elim (Bool-cases (watcher.should_stop state.iterations)) [
        | inl stopped ↦
            rw stopped
              (unfold stop in asked _ (record { balanced = before.balanced }) refl within stopped)
        | inr free ↦ elim (Result-cases (watcher.run_once state.iterations)) [
          | inl (e, failed) ↦
              rw (free, failed) (unfold after_pass in raised state.iterations e within failed)
          | inr (result, gave) ↦ elim (Bool-cases (is_final result)) [
            | inl final ↦
                rw (free, gave)
                  (unfold after_pass in rw final (gate-Ended state result before within gave final))
            | inr more ↦
                rw (free, gave)
                  (unfold after_pass in
                    rw more (
                      loop-Ended left (counted state result)
                        (counted-IsBalanced state result before)
                        (counted-stopped state result ∙ going)
                        (omega (arith, room, counted-iterations state result))))
          ]
        ]
      ]

-- A watch that is bounded by `max_iterations` ends in one of four ways: a pass within the bound raised
-- and its error is the watch's; it made exactly `max_iterations` passes and is not marked as stopped;
-- it is marked as stopped, before the bound, where a stop was asked for; or it is marked as stopped
-- after a pass whose result waits for a human or a paused sprint. Where it returns, each pass is
-- counted once, as idle or as processed.
pub run_counters :
    (watcher : Watcher) (max_iterations : ℕ)
    → Ended watcher max_iterations (run watcher max_iterations)
unfolding run
run_counters watcher max_iterations =
    loop-Ended watcher max_iterations max_iterations fresh (record { balanced = omega arith }) refl
      (omega arith)
