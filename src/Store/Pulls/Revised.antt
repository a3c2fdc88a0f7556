-- ===== src/Store/Pulls/Revised.antt =====
-- The row that `record_revision` of src/factory/infrastructure/persistence/pr_sqlite.py gives back.
use ai_factory_lab.Common.{
  String, ◌≡◌, subst, true, false, not, ◌&&◌, ◌||◌, is_blank, is_none, some, List, [], ◌∷◌, any,
  find, update_where, ◌==◌, ==_refl, string_eq, option_eq, arith, inl, inr, Bool-cases,
  Option-cases,
}
use ai_factory_lab.Domain.Models.{PullRequest}
use ai_factory_lab.Store.{Db}
use ai_factory_lab.Store.Pulls.{
  is_stored_pull, set_revision, get_for_run, read_pull, write_revision, record_revision,
  is_revision, pull_source, revision_source,
}
use ai_factory_lab.Exec.Ensures.{Holds}

-- Both are of one repository, head and base branch.
pub record SamePlace (a b : PullRequest) : Type 0 where
  pub slug : b.repository_slug ≡ a.repository_slug
  pub head : b.head_branch ≡ a.head_branch
  pub base : b.base_branch ≡ a.base_branch

module _ (pr : PullRequest) (run_id commit_sha : String) where
  stored-SamePlace : (x : PullRequest) → is_stored_pull pr x ≡ true → SamePlace pr x
  unfolding is_stored_pull
  stored-SamePlace x stored = record {
    slug = ground (arith, stored, string_eq.beq_iff x.repository_slug pr.repository_slug);
    head = ground (arith, stored, string_eq.beq_iff x.head_branch pr.head_branch);
    base = ground (arith, stored, string_eq.beq_iff x.base_branch pr.base_branch);
  }

  revised-SamePlace :
      (x : PullRequest)
      → is_stored_pull pr x ≡ true
      → SamePlace pr (set_revision run_id commit_sha x)
  unfolding set_revision
  revised-SamePlace x stored =
      let same = stored-SamePlace x stored in
      record { slug = same.slug; head = same.head; base = same.base }

  found-SamePlace :
      (xs : List PullRequest) {row : PullRequest}
      → any (λ x. x.run_id == some run_id && not (is_stored_pull pr x)) xs ≡ false
      → find
          (λ x. x.run_id == some run_id)
          (update_where (is_stored_pull pr) (set_revision run_id commit_sha) xs)
        ≡ some row
      → SamePlace pr row
  unfolding set_revision
  found-SamePlace [] free found = cc
  found-SamePlace (x ∷ xs) {row} free found = elim (Bool-cases (is_stored_pull pr x)) [
    | inl stored ↦
        subst (SamePlace pr) (ground (arith, found, stored, ==_refl run_id))
          (revised-SamePlace x stored)
    | inr other ↦
        found-SamePlace xs {row = row} (ground (arith, free, other))
          (ground (arith, free, found, other))
  ]

  read_pull-SamePlace :
      (db : Db)
      → any (λ x. x.run_id == some run_id && not (is_stored_pull pr x)) db.pulls ≡ false
      → Holds
          (SamePlace pr)
          (read_pull run_id (record db {
            pulls = update_where (is_stored_pull pr) (set_revision run_id commit_sha) db.pulls;
          })).0
  unfolding read_pull get_for_run
  read_pull-SamePlace db free =
      elim (Option-cases (
        find (λ x. x.run_id == some run_id)
          (update_where (is_stored_pull pr) (set_revision run_id commit_sha) db.pulls))) [
            | inl missing ↦ rw (missing, read_pull) tt
            | inr (row, found) ↦ rw (found, read_pull) (found-SamePlace db.pulls free found)
          ]

  write_revision-SamePlace :
      (db : Db) → Holds (SamePlace pr) (write_revision pr run_id commit_sha db).0
  unfolding write_revision
  write_revision-SamePlace db = elim (Bool-cases (not (any (is_stored_pull pr) db.pulls))) [
    | inl absent ↦ rw absent tt
    | inr there ↦
        elim (Bool-cases
          (any (λ x. x.run_id == some run_id && not (is_stored_pull pr x)) db.pulls)) [
            | inl taken ↦ rw (there, taken) tt
            | inr free ↦ rw (there, free) (read_pull-SamePlace db free)
          ]
  ]

  -- Where a revision is recorded, the row that is returned is of the pull request's own repository,
  -- head branch and base branch.
  pub record_revision-SamePlace :
      (db : Db) → Holds (SamePlace pr) (record_revision pr run_id commit_sha db).0
  unfolding record_revision
  record_revision-SamePlace db =
      elim (Bool-cases (is_blank commit_sha || is_blank run_id || is_none pr.run_id)) [
        | inl invalid ↦ rw invalid tt
        | inr valid ↦
            elim (Bool-cases
              (not (is_revision pr (pull_source pr db) (revision_source run_id db)))) [
                | inl foreign ↦ rw (valid, foreign) tt
                | inr own ↦ rw (valid, own) (write_revision-SamePlace db)
              ]
      ]
