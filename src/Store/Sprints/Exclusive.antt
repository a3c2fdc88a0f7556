-- ===== src/Store/Sprints/Exclusive.antt =====
-- One live sprint for each project, under src/factory/infrastructure/persistence/sprint_sqlite.py.
use ai_factory_lab.Common.{
  ℕ, String, ◌≡◌, refl, ◌∙◌, Bool, true, false, not, ◌&&◌, ◌||◌, none, some, List, [], ◌∷◌, ◌++◌,
  find, any, all, update_where, updated, ◌==◌, ==_sym, string_eq, arith, inl, inr, Option-cases,
  Bool-cases, any_swap,
}
use ai_factory_lab.Domain.Sprints.{
  SprintState, SprintStep, SprintManifest, sprint_state_eq, serves, shares_project, same_manifest,
}
use ai_factory_lab.Store.{Db, SprintRow}
use ai_factory_lab.Store.Sprints.{
  SprintEvent, is_live, is_sprint, find_sprint, is_rival, insert_sprint, authorize, is_valid_move,
  set_sprint, write_sprint, move_row, move,
}
use ai_factory_lab.Store.Sprints.Course.{move_live}

-- The rows have one identifier, or are both live with a project in common.
unfoldable pub collides : SprintRow → SprintRow → Bool
collides a b =
    a.manifest.sprint_id == b.manifest.sprint_id
    || (is_live a && is_live b && shares_project a.manifest b.manifest)

unfoldable pub are_exclusive : List SprintRow → Bool
are_exclusive [] = true
are_exclusive (row ∷ rest) = not (any (collides row) rest) && are_exclusive rest

-- Each identifier names one sprint, and no two live sprints have a project in common.
pub record IsExclusive (db : Db) : Type 0 where
  pub exclusive : are_exclusive db.sprints ≡ true

any_same :
    (f g : SprintStep → Bool) (steps : List SprintStep)
    → ((x : SprintStep) → f x ≡ g x)
    → any f steps ≡ any g steps
any_same f g [] same = refl
any_same f g (x ∷ xs) same = rw (same x, any_same f g xs same) refl

shares_project_sym : (a b : SprintManifest) → shares_project a b ≡ shares_project b a
unfolding shares_project serves
shares_project_sym a b =
    any_swap (λ x y. y.item.project_id == x.item.project_id) a.steps b.steps
    ∙ any_same (λ y. any (λ x. y.item.project_id == x.item.project_id) a.steps)
        (λ y. any (λ x. x.item.project_id == y.item.project_id) a.steps) b.steps
        (λ y.
          any_same (λ x. y.item.project_id == x.item.project_id)
            (λ x. x.item.project_id == y.item.project_id) a.steps
            (λ x. ==_sym y.item.project_id x.item.project_id))

module _ (new : SprintRow) where
  any-append :
      (x : SprintRow) (xs : List SprintRow)
      → any (collides x) xs ≡ false
      → collides x new ≡ false
      → any (collides x) (xs ++ new ∷ []) ≡ false
  any-append x [] h k = ground (arith, k)
  any-append x (y ∷ ys) h k = ground (arith, h, k, any-append x ys)

  exclusive-append :
      (xs : List SprintRow)
      → are_exclusive xs ≡ true
      → any (λ x. collides x new) xs ≡ false
      → are_exclusive (xs ++ new ∷ []) ≡ true
  unfolding are_exclusive
  exclusive-append [] h k = refl
  exclusive-append (x ∷ xs) h k = ground (arith, h, k, any-append x xs, exclusive-append xs)

module _ (sprint_id : String) (state : SprintState) (position : ℕ) where
  abbrev moved : SprintRow → SprintRow
  moved = updated (is_sprint sprint_id) (set_sprint state position)

  abbrev move_all : List SprintRow → List SprintRow
  move_all = update_where (is_sprint sprint_id) (set_sprint state position)

  -- A row that the move writes is live before it.
  abbrev was_live : SprintRow → Bool
  was_live row = not (is_sprint sprint_id row) || is_live row

  moved-collides :
      (x y : SprintRow)
      → was_live x ≡ true
      → was_live y ≡ true
      → collides x y ≡ false
      → collides (moved x) (moved y) ≡ false
  unfolding collides set_sprint
  moved-collides x y lx ly apart = elim (Bool-cases (is_sprint sprint_id x)) [
    | inl px ↦ elim (Bool-cases (is_sprint sprint_id y)) [
      | inl py ↦ rw (px, py) (ground (arith, lx, ly, px, py, apart))
      | inr qy ↦ rw (px, qy) (ground (arith, lx, px, apart))
    ]
    | inr qx ↦ elim (Bool-cases (is_sprint sprint_id y)) [
      | inl py ↦ rw (qx, py) (ground (arith, ly, py, apart))
      | inr qy ↦ rw (qx, qy) apart
    ]
  ]

  any-moved :
      (x : SprintRow) (ys : List SprintRow)
      → was_live x ≡ true
      → all was_live ys ≡ true
      → any (collides x) ys ≡ false
      → any (collides (moved x)) (move_all ys) ≡ false
  any-moved x [] lx lys h = refl
  any-moved x (y ∷ ys) lx lys h = ground (arith, lx, lys, h, moved-collides x y, any-moved x ys)

  exclusive-moved :
      (xs : List SprintRow)
      → all was_live xs ≡ true
      → are_exclusive xs ≡ true
      → are_exclusive (move_all xs) ≡ true
  unfolding are_exclusive
  exclusive-moved [] live h = refl
  exclusive-moved (x ∷ xs) live h = ground (arith, live, h, any-moved x xs, exclusive-moved xs)

  not_again :
      (x : SprintRow) (ys : List SprintRow)
      → is_sprint sprint_id x ≡ true
      → any (collides x) ys ≡ false
      → all was_live ys ≡ true
  unfolding collides is_sprint
  not_again x [] px h = refl
  not_again x (y ∷ ys) px h = ground (
    arith,
    h,
    px,
    not_again x ys,
    string_eq.beq_iff x.manifest.sprint_id sprint_id,
    string_eq.beq_iff y.manifest.sprint_id sprint_id,
    string_eq.beq_iff x.manifest.sprint_id y.manifest.sprint_id,
  )

  -- The only row of the identifier is the one that was found.
  all_live :
      (xs : List SprintRow) {row : SprintRow}
      → find (is_sprint sprint_id) xs ≡ some row
      → is_live row ≡ true
      → are_exclusive xs ≡ true
      → all was_live xs ≡ true
  unfolding are_exclusive
  all_live [] found live h = refl
  all_live (x ∷ xs) {row} found live h = elim (Bool-cases (is_sprint sprint_id x)) [
    | inl px ↦ ground (arith, px, found, live, h, not_again x xs px)
    | inr qx ↦ ground (arith, qx, found, live, h, all_live xs {row = row})
  ]

module _ (sprint_id : String) (state : SprintState) (position : ℕ) (event : SprintEvent) (db : Db)
    (unique : IsExclusive db) where
  write-IsExclusive :
      {row : SprintRow}
      → find_sprint sprint_id db ≡ some row
      → is_valid_move event row.state row.position state position ≡ true
      → IsExclusive (write_sprint sprint_id state position event db)
  unfolding find_sprint write_sprint is_live
  write-IsExclusive {row} found valid = record {
    exclusive =
        exclusive-moved sprint_id state position db.sprints
          (all_live sprint_id state position db.sprints found
            (move_live event row.state state row.position position valid) unique.exclusive)
          unique.exclusive;
  }

  move_row-IsExclusive :
      {row : SprintRow}
      → find_sprint sprint_id db ≡ some row
      → IsExclusive (move_row sprint_id state position event row db).1
  unfolding move_row
  move_row-IsExclusive {row} found =
      elim (Bool-cases (is_valid_move event row.state row.position state position)) [
        | inr invalid ↦ rw invalid unique
        | inl valid ↦ rw valid (write-IsExclusive found valid)
      ]

  -- A move, valid or refused, brings no second live sprint of a project to life.
  pub move-IsExclusive : IsExclusive (move sprint_id state position event db).1
  unfolding move
  move-IsExclusive = elim (Option-cases (find_sprint sprint_id db)) [
    | inl missing ↦ rw (missing, move) unique
    | inr (row, found) ↦ rw (found, move) (move_row-IsExclusive found)
  ]

module _ (manifest : SprintManifest) where
  abbrev new_row : SprintRow
  new_row = record { manifest = manifest; state = SprintState.active; position = 0 }

  no_collision :
      (xs : List SprintRow)
      → find (is_sprint manifest.sprint_id) xs ≡ none
      → any (is_rival manifest) xs ≡ false
      → any (λ x. collides x new_row) xs ≡ false
  unfolding collides is_rival is_sprint is_live
  no_collision [] absent free = refl
  no_collision (x ∷ xs) absent free =
      ground (arith, absent, free, shares_project_sym x.manifest manifest, no_collision xs)

  insert-IsExclusive :
      (db : Db)
      → IsExclusive db
      → find_sprint manifest.sprint_id db ≡ none
      → any (is_rival manifest) db.sprints ≡ false
      → IsExclusive (insert_sprint manifest db)
  unfolding insert_sprint find_sprint
  insert-IsExclusive db unique absent free = record {
    exclusive =
        exclusive-append new_row db.sprints unique.exclusive (no_collision db.sprints absent free);
  }

  -- An authorisation, granted or refused, leaves at most one live sprint for each project.
  pub authorize-IsExclusive : (db : Db) → IsExclusive db → IsExclusive (authorize manifest db).1
  unfolding authorize
  authorize-IsExclusive db unique = elim (Option-cases (find_sprint manifest.sprint_id db)) [
    | inr (row, found) ↦ elim (Bool-cases (same_manifest row.manifest manifest)) [
      | inl same ↦ rw (found, authorize) (rw same unique)
      | inr other ↦ rw (found, authorize) (rw other unique)
    ]
    | inl absent ↦ elim (Bool-cases (any (is_rival manifest) db.sprints)) [
      | inl taken ↦ rw (absent, authorize) (rw taken unique)
      | inr free ↦ rw (absent, authorize) (rw free (insert-IsExclusive db unique absent free))
    ]
  ]
