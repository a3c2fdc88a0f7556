-- ===== src/Orchestration/Backlog/Once.antt =====
-- What a pass of src/factory/orchestration/backlog.py keeps: a work item is posted once.
use ai_factory_lab.Common.{
  ◌≤◌, String, ◌≡◌, Bool, true, not, Option, none, some, List, [], ◌∷◌, nat_eq, string_eq, length,
  count, count-append, arith, inl, inr, Bool-cases, is_some, ◌||◌,
}
use ai_factory_lab.Domain.Sprints.{WorkItem, MaterializedIssue}
use ai_factory_lab.Domain.Errors.{Result, Result-cases, ok, err}
use ai_factory_lab.Store.Links.{Links, reserve, begin_write, complete, get_issue}
use ai_factory_lab.Store.Links.Growth.{
  named, rows_of, begun_of, Later, reserve-Later, begin_write-Later, complete-Later,
  begin_write-begun, record_rejection-rows, begun_rows,
}
use ai_factory_lab.Orchestration.Backlog.{
  BacklogService, BacklogSummary, Bench, Fate, is_routed, still_eligible, reject, complete_as,
  finish_create, post, write_current, reread, after_search, after_reserve, materialize,
  materialize_all, listed, reconcile_backlog, later, count_fate, examined_only, run_passes,
  fresh_bench,
}

-- Each work item has one row at most, and was posted only if its row left RESERVED.
record IsOnce (provider external_id : String) (w : Bench) : Type 0 where
  one_row : rows_of provider external_id w.links ≤ 1
  posted_begun : count (named provider external_id) w.posted ≤ begun_of provider external_id w.links

module _ (p e : String) where
  still_eligible-key :
      (candidate current : WorkItem)
      → still_eligible candidate current ≡ true
      → named p e current ≡ named p e candidate
  unfolding still_eligible
  still_eligible-key candidate current h = ground (
    arith,
    h,
    string_eq.beq_iff current.provider candidate.provider,
    string_eq.beq_iff current.external_id candidate.external_id,
  )

  advanced :
      (w : Bench) (links : Links)
      → Later p e w.links links
      → IsOnce p e w
      → IsOnce p e (record w { links = links })
  advanced w links next once = record {
    one_row = next.still_one once.one_row;
    posted_begun = omega (arith, once.posted_begun, next.still_begun);
  }

  waited : (w : Bench) → IsOnce p e w → IsOnce p e (later w)
  waited w once = record { one_row = once.one_row; posted_begun = once.posted_begun }

  complete_as-IsOnce :
      (fate : Fate) (item : WorkItem) (issue : MaterializedIssue) (w : Bench)
      → IsOnce p e w
      → IsOnce p e (complete_as fate item issue w).1
  unfolding complete_as
  complete_as-IsOnce fate item issue w =
      advanced w (complete item issue w.links).1 (complete-Later p e item issue w.links)

  reject-IsOnce : (item : WorkItem) (w : Bench) → IsOnce p e w → IsOnce p e (reject item w).1
  unfolding reject
  reject-IsOnce item w once =
      let same = record_rejection-rows p e item w.links in
      record { one_row = rw same once.one_row; posted_begun = rw same once.posted_begun }

  module _ (s : BacklogService) where
    finish_create-IsOnce :
        (candidate : WorkItem) (reply : Result MaterializedIssue) (w : Bench)
        → IsOnce p e w
        → IsOnce p e (finish_create s candidate reply w).1
    unfolding finish_create
    finish_create-IsOnce candidate (err error) w once = once
    finish_create-IsOnce candidate (ok issue) w once =
        complete_as-IsOnce Fate.created candidate issue w once

    post-IsOnce :
        (candidate current : WorkItem) (w : Bench)
        → still_eligible candidate current ≡ true
        → (begin_write candidate w.links).0 ≡ true
        → IsOnce p e w
        → IsOnce p e
            (post s candidate current (record w { links = (begin_write candidate w.links).1 })).1
    unfolding post
    post-IsOnce candidate current w fit mine once =
        let next = begin_write-Later p e candidate w.links in
        finish_create-IsOnce candidate (s.create_issue w.tick current) _ (record {
          one_row = next.still_one once.one_row;
          posted_begun = ground (
            arith,
            once.posted_begun,
            next.still_begun,
            count-append (named p e) w.posted (current ∷ []),
            still_eligible-key candidate current fit,
            λ (h : named p e candidate ≡ true). begin_write-begun p e candidate w.links h mine,
          );
        })

    write_current-IsOnce :
        (candidate current : WorkItem) (w : Bench)
        → IsOnce p e w
        → IsOnce p e (write_current s candidate current w).1
    unfolding write_current
    write_current-IsOnce candidate current w once =
        elim (Bool-cases (is_routed s.registry current)) [
          | inr astray ↦ rw astray (reject-IsOnce current w once)
          | inl routed ↦ elim (Bool-cases (still_eligible candidate current)) [
            | inr unfit ↦ rw (routed, unfit) once
            | inl fit ↦ elim (Bool-cases (begin_write candidate w.links).0) [
              | inl mine ↦ rw (routed, fit, mine) (post-IsOnce candidate current w fit mine once)
              | inr taken ↦
                  rw (routed, fit, taken)
                    (advanced w (begin_write candidate w.links).1
                      (begin_write-Later p e candidate w.links) once)
            ]
          ]
        ]

    reread-IsOnce :
        (candidate : WorkItem) (reply : Result WorkItem) (w : Bench)
        → IsOnce p e w
        → IsOnce p e (reread s candidate reply w).1
    unfolding reread
    reread-IsOnce candidate (err error) w once = once
    reread-IsOnce candidate (ok current) w once = write_current-IsOnce candidate current w once

    after_search-IsOnce :
        (candidate : WorkItem) (reply : Result (Option MaterializedIssue)) (w : Bench)
        → IsOnce p e w
        → IsOnce p e (after_search s candidate reply w).1
    unfolding after_search
    after_search-IsOnce candidate (err error) w once = once
    after_search-IsOnce candidate (ok (some found)) w once =
        complete_as-IsOnce Fate.existing candidate found w once
    after_search-IsOnce candidate (ok none) w once =
        reread-IsOnce candidate (s.get_item w.tick candidate.external_id) (later w) (waited w once)

    after_reserve-IsOnce :
        (candidate : WorkItem) (reply : Result Bool) (w : Bench)
        → IsOnce p e w
        → IsOnce p e (after_reserve s candidate reply w).1
    unfolding after_reserve
    after_reserve-IsOnce candidate (err error) w once = once
    after_reserve-IsOnce candidate (ok fresh) w once =
        elim (Bool-cases (is_some (get_issue candidate.provider candidate.external_id w.links))) [
          | inl linked ↦ rw linked once
          | inr unlinked ↦ rw unlinked (
              after_search-IsOnce candidate (s.find_issue w.tick candidate) (later w)
                (waited w once))
        ]

    materialize-IsOnce :
        (candidate : WorkItem) (w : Bench) → IsOnce p e w → IsOnce p e (materialize s candidate w).1
    unfolding materialize
    materialize-IsOnce candidate w once = elim (Bool-cases (is_routed s.registry candidate)) [
      | inr astray ↦ rw astray (reject-IsOnce candidate w once)
      | inl routed ↦
          elim (Bool-cases (not candidate.eligible || not candidate.dependencies_satisfied)) [
            | inl unfit ↦ rw (routed, unfit) once
            | inr fit ↦
                rw (routed, fit)
                  (after_reserve-IsOnce candidate (reserve candidate w.links).0 _ (
                    advanced w (reserve candidate w.links).1 (reserve-Later p e candidate w.links)
                      once))
          ]
    ]

    materialize_all-IsOnce :
        (items : List WorkItem) (r : BacklogSummary) (w : Bench)
        → IsOnce p e w
        → IsOnce p e (materialize_all s items r w).1
    unfolding materialize_all
    materialize_all-IsOnce [] r w once = once
    materialize_all-IsOnce (item ∷ items) r w once =
        let kept = materialize-IsOnce item w once in
        elim (Result-cases (materialize s item w).0) [
          | inl (error, same) ↦ rw (materialize_all, same) kept
          | inr (fate, same) ↦
              rw (materialize_all, same)
                (materialize_all-IsOnce items (count_fate fate r) (materialize s item w).1 kept)
        ]

    reconcile_backlog-IsOnce :
        (external_id : Option String) (w : Bench)
        → IsOnce p e w
        → IsOnce p e (reconcile_backlog s external_id w).1
    unfolding reconcile_backlog
    reconcile_backlog-IsOnce external_id w once =
        elim (Result-cases (listed s external_id w.tick)) [
          | inl (error, same) ↦ rw (reconcile_backlog, same) (waited w once)
          | inr (items, same) ↦
              rw (reconcile_backlog, same)
                (materialize_all-IsOnce items (examined_only (length items)) (later w)
                  (waited w once))
        ]

  run_passes-IsOnce :
      (calls : List (BacklogService × Option String)) (w : Bench)
      → IsOnce p e w
      → IsOnce p e (run_passes calls w)
  unfolding run_passes
  run_passes-IsOnce [] w once = once
  run_passes-IsOnce ((s, external_id) ∷ calls) w once =
      run_passes-IsOnce calls (reconcile_backlog s external_id w).1
        (reconcile_backlog-IsOnce s external_id w once)

  -- However often the backlog is reconciled, and whatever is answered or raised, an issue is asked to
  -- be created at most once for each work item.
  pub posts-once :
      (calls : List (BacklogService × Option String))
      → count (named p e) (run_passes calls fresh_bench).posted ≤ 1
  posts-once calls =
      let once =
        run_passes-IsOnce calls fresh_bench
          (record { one_row = omega arith; posted_begun = omega arith }) in
      omega (
        arith,
        once.one_row,
        once.posted_begun,
        begun_rows p e (run_passes calls fresh_bench).links.rows,
      )
