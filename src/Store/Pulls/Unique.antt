-- ===== src/Store/Pulls/Unique.antt =====
-- The two unique constraints of src/factory/infrastructure/persistence/schema.py on pull requests,
-- under the writes of src/factory/infrastructure/persistence/pr_sqlite.py.
use ai_factory_lab.Common.{
  String, ◌≡◌, ◌≢◌, refl, sym, ◌∙◌, Bool, true, false, not, ◌&&◌, Option, none, some, List, [], ◌∷◌,
  ◌++◌, any, update_where, updated, ◌==◌, ==_sym, string_eq, option_eq, nat_eq, arith, inl, inr,
  Bool-cases, Option-cases,
}
use ai_factory_lab.Domain.Models.{PullRequest}
use ai_factory_lab.Store.{Db}
use ai_factory_lab.Store.Pulls.{
  breaks_identity, to_pull_row, insert_pull, insert_by, save_pull, is_stored_pull, set_revision,
  get_for_run, read_pull, write_revision, record_revision,
}

-- No two rows have the same run, or the same repository and branch.
unfoldable pub are_distinct : List PullRequest → Bool
are_distinct [] = true
are_distinct (pr ∷ rest) = not (any (breaks_identity pr) rest) && are_distinct rest

pub record IsUnique (db : Db) : Type 0 where
  pub distinct : are_distinct db.pulls ≡ true

breaks_identity_sym : (a b : PullRequest) → breaks_identity a b ≡ breaks_identity b a
unfolding breaks_identity
breaks_identity_sym a b = rw (
  ==_sym a.run_id b.run_id,
  ==_sym a.repository_slug b.repository_slug,
  ==_sym a.head_branch b.head_branch,
)

any-append :
    (new x : PullRequest) (xs : List PullRequest)
    → breaks_identity new x ≡ false
    → any (breaks_identity x) xs ≡ false
    → any (breaks_identity x) (xs ++ new ∷ []) ≡ false
any-append new x [] h k = rw (breaks_identity_sym x new, h)
any-append new x (y ∷ ys) h k = ground (arith, any-append new x ys h)

distinct-append :
    (new : PullRequest) (xs : List PullRequest)
    → any (breaks_identity new) xs ≡ false
    → are_distinct xs ≡ true
    → are_distinct (xs ++ new ∷ []) ≡ true
unfolding are_distinct
distinct-append new [] h k = refl
distinct-append new (x ∷ xs) h k = ground (arith, any-append new x xs, distinct-append new xs)

-- The row that is inserted has the identity of its pull request.
to_pull_row-free :
    (new : PullRequest) (xs : List PullRequest)
    → any (breaks_identity new) xs ≡ any (breaks_identity (to_pull_row new)) xs
unfolding breaks_identity to_pull_row
to_pull_row-free new xs = refl

module _ (new : PullRequest) (run_id : String) (db : Db) (unique : IsUnique db) where
  insert_pull-IsUnique : IsUnique (insert_pull new run_id db).1
  unfolding insert_pull
  insert_pull-IsUnique = elim (Bool-cases (any (breaks_identity new) db.pulls)) [
    | inl taken ↦ rw taken unique
    | inr free ↦ elim (Bool-cases (not (any (λ r. r.run.run_id == run_id) db.runs))) [
      | inl absent ↦ rw (free, absent) unique
      | inr there ↦
          rw (free, there)
            (record {
              distinct =
                  distinct-append (to_pull_row new) db.pulls
                    (sym (to_pull_row-free new db.pulls) ∙ free) unique.distinct;
            })
    ]
  ]

insert_by-IsUnique :
    (run_id : Option String) (pr : PullRequest) (db : Db)
    → IsUnique db
    → IsUnique (insert_by run_id pr db).1
unfolding insert_by
insert_by-IsUnique none pr db unique = unique
insert_by-IsUnique (some run_id) pr db unique = insert_pull-IsUnique pr run_id db unique

-- A save, of whatever pull request, keeps at most one row for each run and for each branch.
pub save_pull-IsUnique : (pr : PullRequest) (db : Db) → IsUnique db → IsUnique (save_pull pr db).1
unfolding save_pull
save_pull-IsUnique pr db unique = insert_by-IsUnique pr.run_id pr db unique

module _ (pr : PullRequest) (run_id commit_sha : String) where
  abbrev revised : PullRequest → PullRequest
  revised = updated (is_stored_pull pr) (set_revision run_id commit_sha)

  -- The row stands in the way of the UPDATE.
  abbrev is_clash : PullRequest → Bool
  is_clash row = row.run_id == some run_id && not (is_stored_pull pr row)

  stored_run : (x : PullRequest) → is_stored_pull pr x ≡ true → x.run_id ≡ pr.run_id
  unfolding is_stored_pull
  stored_run x stored = ground (arith, stored, (option_eq {A = String}).beq_iff x.run_id pr.run_id)

  distinct_runs : (x y : PullRequest) → breaks_identity x y ≡ false → x.run_id ≢ y.run_id
  unfolding breaks_identity
  distinct_runs x y apart same =
      ground (arith, apart, ((option_eq {A = String}).beq_iff y.run_id x.run_id).1 (sym same))

  revised_pair :
      (x y : PullRequest)
      → breaks_identity x y ≡ false
      → is_clash x ≡ false
      → is_clash y ≡ false
      → breaks_identity (revised x) (revised y) ≡ false
  unfolding breaks_identity set_revision
  revised_pair x y apart fx fy = elim (Bool-cases (is_stored_pull pr x)) [
    | inl px ↦ elim (Bool-cases (is_stored_pull pr y)) [
      | inl py ↦ absurd (distinct_runs x y apart (stored_run x px ∙ sym (stored_run y py)))
      | inr qy ↦ rw (px, qy) (ground (arith, apart, rw qy at fy))
    ]
    | inr qx ↦ elim (Bool-cases (is_stored_pull pr y)) [
      | inl py ↦ rw (qx, py) (ground (arith, apart, rw qx at fx, ==_sym (some run_id) x.run_id))
      | inr qy ↦ rw (qx, qy) apart
    ]
  ]

  abbrev revise_all : List PullRequest → List PullRequest
  revise_all = update_where (is_stored_pull pr) (set_revision run_id commit_sha)

  any-revised :
      (x : PullRequest) (ys : List PullRequest)
      → any (breaks_identity x) ys ≡ false
      → is_clash x ≡ false
      → any is_clash ys ≡ false
      → any (breaks_identity (revised x)) (revise_all ys) ≡ false
  any-revised x [] apart fx fys = refl
  any-revised x (y ∷ ys) apart fx fys =
      ground (arith, apart, fys, revised_pair x y, any-revised x ys, fx)

  revise_all-distinct :
      (xs : List PullRequest)
      → are_distinct xs ≡ true
      → any is_clash xs ≡ false
      → are_distinct (revise_all xs) ≡ true
  unfolding are_distinct
  revise_all-distinct [] distinct free = refl
  revise_all-distinct (x ∷ xs) distinct free =
      ground (arith, distinct, free, any-revised x xs, revise_all-distinct xs)

  pub read_pull-same : (id : String) (db : Db) → (read_pull id db).1 ≡ db
  unfolding read_pull
  read_pull-same id db = elim (Option-cases (get_for_run id db)) [
    | inl missing ↦ rw (missing, read_pull) refl
    | inr (row, stored) ↦ rw (stored, read_pull) refl
  ]

  write_revision-IsUnique :
      (db : Db) → IsUnique db → IsUnique (write_revision pr run_id commit_sha db).1
  unfolding write_revision
  write_revision-IsUnique db unique = elim (Bool-cases (not (any (is_stored_pull pr) db.pulls))) [
    | inl absent ↦ rw absent unique
    | inr stored ↦ elim (Bool-cases (any is_clash db.pulls)) [
      | inl taken ↦ rw (stored, taken) unique
      | inr free ↦
          rw (stored, free)
            (rw (read_pull-same run_id)
              (record { distinct = revise_all-distinct db.pulls unique.distinct free }))
    ]
  ]

  -- A revision that is recorded, or refused, keeps at most one row for each run and for each branch.
  pub record_revision-IsUnique :
      (db : Db) → IsUnique db → IsUnique (record_revision pr run_id commit_sha db).1
  unfolding record_revision
  record_revision-IsUnique db unique = ground (arith, unique, write_revision-IsUnique db unique)
