-- ===== src/Orchestration/Intake/Once.antt =====
-- Every open issue is accounted for by src/factory/orchestration/intake.py, and becomes a task once.
use ai_factory_lab.Common.{
  ℕ, ◌+◌, String, ◌≡◌, refl, ap, Bool, true, false, not, ◌&&◌, Option, none, some, List, [], ◌∷◌,
  ◌++◌, any, all, find, suc, is_some, length, ==_refl, string_eq, arith, inl, inr, Bool-cases,
  if◌then◌else◌, map, nat_eq,
}
use ai_factory_lab.Domain.Models.{TaskSource, FactoryTask}
use ai_factory_lab.Domain.Errors.{ok}
use ai_factory_lab.Store.{Db}
use ai_factory_lab.Store.Tasks.{find_by_source, has_source, breaks_task, save_task}
use ai_factory_lab.Exec.{World, Exec, pure, lift, ask, transact, ◌>>=◌, attempt}
use ai_factory_lab.Orchestration.Intake.{
  IntakeService, IntakeSummary, counted_none, counted_created, counted_existing, counted_error,
  add_counts, intake_new, intake_sourced, intake_all, intake,
}

-- What a pass does to the table for one task: the row is appended, or nothing is.
unfoldable pub would_save : IntakeService → FactoryTask → Option TaskSource → Db → Bool
would_save s task none db = false
would_save s task (some source) db =
    not (is_some (find_by_source source db))
    && s.link_allows task
    && not (any (breaks_task task) db.tasks)

abbrev pub stored_after : IntakeService → FactoryTask → Db → Db
stored_after s task db =
    if would_save s task task.source db then record db { tasks = db.tasks ++ task ∷ [] } else db

abbrev total : IntakeSummary → ℕ
total counts = counts.created + counts.existing + counts.errors

-- A task of the source is stored.
abbrev is_known : Db → Option TaskSource → Bool
is_known db none = false
is_known db (some source) = is_some (find_by_source source db)

module _ {A : Type 0} (p : A → Bool) where
  found-append : (xs ys : List A) → is_some (find p xs) ≡ true → is_some (find p (xs ++ ys)) ≡ true
  found-append [] ys h = cc
  found-append (x ∷ xs) ys h = ground (arith, h, found-append xs ys)

  found-last : (xs : List A) (x : A) → p x ≡ true → is_some (find p (xs ++ x ∷ [])) ≡ true
  found-last [] x h = rw h refl
  found-last (y ∷ xs) x h = ground (arith, found-last xs x h)

known_stays :
    (db : Db) (other : FactoryTask) (source : Option TaskSource)
    → is_known db source ≡ true
    → is_known (record db { tasks = db.tasks ++ other ∷ [] }) source ≡ true
unfolding find_by_source
known_stays db other none h = h
known_stays db other (some source) h =
    found-append (λ t. has_source source t.source) db.tasks (other ∷ []) h

known_itself :
    (db : Db) (task : FactoryTask) (source : TaskSource)
    → task.source ≡ some source
    → is_known (record db { tasks = db.tasks ++ task ∷ [] }) (some source) ≡ true
unfolding find_by_source
known_itself db task source own =
    found-last (λ t. has_source source t.source) db.tasks task
      (rw own (
        unfold has_source in
        rw (==_refl source.provider, ==_refl source.repository_slug, ==_refl source.issue_number)
          refl))

-- The body of the loop returns, adds the row or nothing, counts the issue once, and leaves its source
-- stored unless it is counted as an error.
record Passed (saves : Bool) (stored : Db) (w : World) (source : Option TaskSource)
    (m : Exec IntakeSummary) : Type 0 where
  counts : IntakeSummary
  ran : m w ≡ (ok counts, record w { db = if saves then stored else w.db })
  once : total counts ≡ 1
  kept : counts.errors ≡ 0 → is_known (if saves then stored else w.db) source ≡ true

module _ (s : IntakeService) (task : FactoryTask) (w : World) where
  abbrev appended : Db
  appended = record w.db { tasks = w.db.tasks ++ task ∷ [] }

  abbrev PassedBy : Option TaskSource → Type 0
  PassedBy source =
      Passed (would_save s task source w.db) appended w source (intake_sourced s task source)

  intake_sourced-Passed : (source : Option TaskSource) → task.source ≡ source → PassedBy source
  unfolding intake_sourced intake_new would_save save_task attempt transact pure ◌>>=◌
  intake_sourced-Passed none own = record {
    counts = counted_error;
    ran = refl;
    once = omega arith;
    kept = λ h. ground arith;
  }
  intake_sourced-Passed (some source) own =
      elim (Bool-cases (is_some (find_by_source source w.db))) [
        | inl known ↦ record {
          counts = counted_existing;
          ran = rw known refl;
          once = omega arith;
          kept = λ h. rw known (rw known);
        }
        | inr new ↦ elim (Bool-cases (s.link_allows task)) [
          | inr refused ↦ record {
            counts = counted_error;
            ran = rw (new, refused) refl;
            once = omega arith;
            kept = λ h. ground arith;
          }
          | inl let_in ↦ elim (Bool-cases (any (breaks_task task) w.db.tasks)) [
            | inl taken ↦ record {
              counts = counted_error;
              ran = rw (new, let_in, taken) refl;
              once = omega arith;
              kept = λ h. ground arith;
            }
            | inr free ↦ record {
              counts = counted_created;
              ran = rw (new, let_in, free) refl;
              once = omega arith;
              kept = λ h. rw (new, let_in, free) (known_itself w.db task source own);
            }
          ]
        ]
      ]

-- The database after a pass over tasks, as a function of it alone.
unfoldable pub all_stored : IntakeService → List FactoryTask → Db → Db
unfolding would_save
all_stored s [] db = db
all_stored s (task ∷ tasks) db = all_stored s tasks (stored_after s task db)

all_known :
    (s : IntakeService) (tasks : List FactoryTask) (db : Db) (source : Option TaskSource)
    → is_known db source ≡ true
    → is_known (all_stored s tasks db) source ≡ true
unfolding all_stored
all_known s [] db source h = h
all_known s (task ∷ tasks) db source h =
    all_known s tasks (stored_after s task db) source
      (elim (Bool-cases (would_save s task task.source db)) [
        | inl saved ↦ rw saved (known_stays db task source h)
        | inr left ↦ rw left h
      ])

record PassedAll (s : IntakeService) (tasks : List FactoryTask) (w : World) : Type 0 where
  counts : IntakeSummary
  ran : intake_all s tasks w ≡ (ok counts, record w { db = all_stored s tasks w.db })
  once : total counts ≡ length tasks
  kept :
      counts.errors ≡ 0
      → all (is_known (all_stored s tasks w.db)) (map (λ t. t.source) tasks) ≡ true

intake_all-PassedAll :
    (s : IntakeService) (tasks : List FactoryTask) (w : World) → PassedAll s tasks w
unfolding intake_all all_stored add_counts pure ◌>>=◌
intake_all-PassedAll s [] w = record {
  counts = counted_none;
  ran = refl;
  once = omega arith;
  kept = λ h. refl;
}
intake_all-PassedAll s (task ∷ tasks) w =
    let first = intake_sourced-Passed s task w task.source refl in
    let rest = intake_all-PassedAll s tasks (record w { db = stored_after s task w.db }) in
    record {
      counts = add_counts first.counts rest.counts;
      ran = rw first.ran (rw rest.ran refl);
      once = omega (arith, first.once, rest.once);
      kept = λ h.
          let known =
            all_known s tasks (stored_after s task w.db) task.source
              (first.kept (omega (arith, h))) in
          rw (known, rest.kept (omega (arith, h))) refl;
    }

one_more : (n : ℕ) → 1 + n ≡ suc n
one_more n = omega arith

module _ (s : IntakeService) where
  known_existing :
      (task : FactoryTask) (source : Option TaskSource) (w : World)
      → is_known w.db source ≡ true
      → intake_sourced s task source w ≡ (ok counted_existing, w)
  unfolding intake_sourced pure ◌>>=◌
  known_existing task none w h = cc
  known_existing task (some source) w h = rw h refl

  all_existing :
      (tasks : List FactoryTask) (w : World)
      → all (is_known w.db) (map (λ t. t.source) tasks) ≡ true
      → intake_all s tasks w
        ≡ (ok (record { discovered = 0; created = 0; existing = length tasks; errors = 0 }), w)
  unfolding intake_all add_counts pure ◌>>=◌
  all_existing [] w h = refl
  all_existing (task ∷ tasks) w h = rw (known_existing task task.source w (ground (arith, h))) (
      rw (all_existing tasks w (ground (arith, h))) (
        ap (λ (n : ℕ). (ok (record { discovered = 0; created = 0; existing = n; errors = 0 }), w))
          (one_more (length tasks))))

module _ (s : IntakeService) (repository : String) (w : World) where
  intake-ran :
      {tasks : List FactoryTask}
      → s.list_open_tasks w.tick repository ≡ ok tasks
      → intake s repository w ≡ (
          let later = record w { tick = suc w.tick } in
          (
            ok (record (intake_all-PassedAll s tasks later).counts { discovered = length tasks }),
            record later { db = all_stored s tasks w.db },
          ))
  unfolding intake ask lift pure ◌>>=◌
  intake-ran {tasks} listed =
      rw listed (rw ((intake_all-PassedAll s tasks (record w { tick = suc w.tick })).ran) refl)

  -- A pass always returns once the issues are listed, and accounts for each of them: it was created,
  -- it existed, or it is an error.
  pub intake-counted :
      {tasks : List FactoryTask}
      → s.list_open_tasks w.tick repository ≡ ok tasks
      → (summary : IntakeSummary) × ((intake s repository w).0 ≡ ok summary)
        × (summary.discovered ≡ length tasks)
        × (summary.created + summary.existing + summary.errors ≡ summary.discovered)
  intake-counted {tasks} listed =
      let passed = intake_all-PassedAll s tasks (record w { tick = suc w.tick }) in
      (
        record passed.counts { discovered = length tasks },
        ap (λ r. r.0) (intake-ran listed),
        refl,
        passed.once,
      )

-- A second pass over the same open issues, after a first one without errors: whatever new identifiers
-- the tasks of its listing have, it returns, finds each issue existing, and writes nothing.
pub intake_again :
    (s : IntakeService) (repository : String) (w : World) {tasks again : List FactoryTask}
    {first : IntakeSummary}
    → s.list_open_tasks w.tick repository ≡ ok tasks
    → (intake s repository w).0 ≡ ok first
    → first.errors ≡ 0
    → s.list_open_tasks (suc w.tick) repository ≡ ok again
    → map (λ t. t.source) again ≡ map (λ t. t.source) tasks
    → let after = (intake s repository w).1 in
      intake s repository after ≡ (
        ok (record { discovered = length again; created = 0; existing = length again; errors = 0 }),
        record after { tick = suc after.tick },
      )
unfolding intake ask lift pure ◌>>=◌
intake_again s repository w {tasks} {again} {first} listed ran clean relisted same =
    let passed = intake_all-PassedAll s tasks (record w { tick = suc w.tick }) in
    let known =
      passed.kept (ground (arith, clean, ran, ap (λ r. r.0) (intake-ran s repository w listed))) in
    rw (intake-ran s repository w listed) (
      rw relisted (
        rw
          (all_existing s again (record w { db = all_stored s tasks w.db; tick = suc (suc w.tick) })
            (rw same known))
          refl))
