-- ===== src/Store/Sprints/Course.antt =====
-- The life of a sprint under src/factory/infrastructure/persistence/sprint_sqlite.py.
use mathlib.Core.Option
use ai_factory_lab.Common.{
  ℕ, suc, String, ◌≡◌, refl, sym, ◌∙◌, ap, subst, true, false, some, any, updated,
  find-update_where, find_holds, find-append, ◌==◌, string_eq, nat_eq, arith, inl, inr,
  Option-cases, Bool-cases, ◌≤◌,
}
use ai_factory_lab.Domain.Sprints.{SprintState, SprintManifest, sprint_state_eq, same_manifest}
use ai_factory_lab.Store.{Db, SprintRow}
use ai_factory_lab.Store.Sprints.{
  SprintEvent, is_live_state, is_sprint, find_sprint, is_rival, insert_sprint, authorize,
  is_valid_move, set_sprint, write_sprint, move_row, move,
}

-- The states and positions that valid moves lead to.
pub data Course (state : SprintState) (position : ℕ) : SprintState → ℕ → Type 0 where
  start : Course state position state position
  follow :
      {s t : SprintState} {m n : ℕ} (event : SprintEvent)
      → Course state position s m
      → is_valid_move event s m t n ≡ true
      → Course state position t n

-- A move never goes back, and at most one step forward.
move_forward :
    (event : SprintEvent) (s t : SprintState) (m n : ℕ)
    → is_valid_move event s m t n ≡ true
    → (m ≤ n) × (n ≤ suc m)
unfolding is_valid_move
move_forward SprintEvent.selected s t m n h = (ground arith, ground arith)
move_forward SprintEvent.paused s t m n h = (ground arith, ground arith)
move_forward SprintEvent.resumed s t m n h = (ground arith, ground arith)
move_forward SprintEvent.cancelled s t m n h = (ground arith, ground arith)
move_forward SprintEvent.advanced s t m n h = (ground arith, ground arith)
move_forward SprintEvent.completed s t m n h = (ground arith, ground arith)

pub move_live :
    (event : SprintEvent) (s t : SprintState) (m n : ℕ)
    → is_valid_move event s m t n ≡ true
    → is_live_state s ≡ true
unfolding is_valid_move is_live_state
move_live SprintEvent.selected s t m n h = ground arith
move_live SprintEvent.paused s t m n h = ground arith
move_live SprintEvent.resumed s t m n h = ground arith
move_live SprintEvent.cancelled s t m n h = ground arith
move_live SprintEvent.advanced s t m n h = ground arith
move_live SprintEvent.completed s t m n h = ground arith

-- However a sprint moves, its position never goes back.
pub Course_forward : {s : SprintState} {m : ℕ} {t : SprintState} {n : ℕ} → Course s m t n → m ≤ n
Course_forward start = omega arith
Course_forward (follow {s = s} {t = t} {m = m} {n = n} event before valid) =
    let (forward, near) = move_forward event s t m n valid in
    omega (arith, Course_forward before, forward)

-- A sprint that is cancelled or complete stays as it is.
pub Course_final :
    {s : SprintState} {m : ℕ} {t : SprintState} {n : ℕ}
    → is_live_state s ≡ false
    → Course s m t n
    → (s ≡ t) × (m ≡ n)
Course_final final start = (refl, refl)
Course_final {s = a} final (follow {s = s} {t = t} {m = m} {n = n} event before valid) =
    let (same, here) = Course_final final before in
    ground (arith, final, same, move_live event s t m n valid)

-- What became of a sprint.
pub record Continued (sprint_id : String) (old : SprintRow) (db : Db) : Type 0 where
  pub row : SprintRow
  pub stored : find_sprint sprint_id db ≡ some row
  pub manifest : row.manifest ≡ old.manifest
  pub course : Course old.state old.position row.state row.position

-- Every sprint of `before` is stored in `db` under the same manifest, where valid moves lead.
pub record Follows (before db : Db) : Type 0 where
  pub continued :
      (sprint_id : String) (old : SprintRow)
      → find_sprint sprint_id before ≡ some old
      → Continued sprint_id old db

pub Follows-refl : (db : Db) → Follows db db
Follows-refl db = record {
  continued = λ sprint_id old stored. record {
    row = old;
    stored = stored;
    manifest = refl;
    course = start;
  };
}

module _ (sprint_id : String) (state : SprintState) (position : ℕ) (event : SprintEvent)
    (db : Db) where
  find_sprint-write :
      (j : String)
      → find_sprint j (write_sprint sprint_id state position event db)
        ≡ Option.map (updated (is_sprint sprint_id) (set_sprint state position)) (find_sprint j db)
  unfolding find_sprint write_sprint
  find_sprint-write j =
      find-update_where (is_sprint j) (is_sprint sprint_id) (set_sprint state position) db.sprints
        (λ x. ground arith)

  module _ {row : SprintRow} (found : find_sprint sprint_id db ≡ some row)
      (valid : is_valid_move event row.state row.position state position ≡ true) where
    updated_self :
        updated (is_sprint sprint_id) (set_sprint state position) row
        ≡ set_sprint state position row
    unfolding find_sprint
    updated_self = rw (find_holds (is_sprint sprint_id) db.sprints found) refl

    same_row : {old : SprintRow} (c : Continued sprint_id old db) → c.row ≡ row
    same_row c = ground (arith, c.stored, found)

    continue_self :
        {old : SprintRow}
        → Continued sprint_id old db
        → Continued sprint_id old (write_sprint sprint_id state position event db)
    continue_self {old} c = record {
      row = set_sprint state position row;
      stored = find_sprint-write sprint_id ∙ rw found (ap (λ r. some r) updated_self);
      manifest = unfold set_sprint in ap (λ r. r.manifest) (sym (same_row c)) ∙ c.manifest;
      course =
          unfold set_sprint in
          follow event
            (subst (λ r. Course old.state old.position r.state r.position) (same_row c) c.course)
            valid;
    }

    other_row :
        {j : String} {old : SprintRow} (c : Continued j old db)
        → (sprint_id == j) ≡ false
        → is_sprint sprint_id c.row ≡ false
    unfolding find_sprint is_sprint
    other_row {j} c other = ground (
      arith,
      other,
      find_holds (is_sprint j) db.sprints c.stored,
      string_eq.beq_iff c.row.manifest.sprint_id j,
      string_eq.beq_iff c.row.manifest.sprint_id sprint_id,
      string_eq.beq_iff sprint_id j,
    )

    updated_other :
        {j : String} {old : SprintRow} (c : Continued j old db)
        → (sprint_id == j) ≡ false
        → updated (is_sprint sprint_id) (set_sprint state position) c.row ≡ c.row
    updated_other {j} c other = rw (other_row c other) refl

    continue_other :
        (j : String) {old : SprintRow}
        → (sprint_id == j) ≡ false
        → Continued j old db
        → Continued j old (write_sprint sprint_id state position event db)
    continue_other j other c = record {
      row = c.row;
      stored = find_sprint-write j ∙ rw c.stored (ap (λ r. some r) (updated_other c other));
      manifest = c.manifest;
      course = c.course;
    }

    write-Follows :
        {before : Db}
        → Follows before db
        → Follows before (write_sprint sprint_id state position event db)
    write-Follows follows = record {
      continued = λ j old stored. elim (Bool-cases (sprint_id == j)) [
        | inl same ↦
            subst
              (λ k.
                Continued k old db
                → Continued k old (write_sprint sprint_id state position event db))
              ((string_eq.beq_iff sprint_id j).0 same) continue_self
              (follows.continued j old stored)
        | inr other ↦ continue_other j other (follows.continued j old stored)
      ];
    }

  move_row-Follows :
      {before : Db} {row : SprintRow}
      → find_sprint sprint_id db ≡ some row
      → Follows before db
      → Follows before (move_row sprint_id state position event row db).1
  unfolding move_row
  move_row-Follows {row = row} found follows =
      elim (Bool-cases (is_valid_move event row.state row.position state position)) [
        | inr invalid ↦ rw invalid follows
        | inl valid ↦ rw valid (write-Follows found valid follows)
      ]

  pub move-Follows :
      {before : Db} → Follows before db → Follows before (move sprint_id state position event db).1
  unfolding move
  move-Follows follows = elim (Option-cases (find_sprint sprint_id db)) [
    | inl missing ↦ rw (missing, move) follows
    | inr (row, found) ↦ rw (found, move) (move_row-Follows found follows)
  ]

insert-Follows :
    (manifest : SprintManifest) (db : Db) {before : Db}
    → Follows before db
    → Follows before (insert_sprint manifest db)
unfolding insert_sprint find_sprint
insert-Follows manifest db follows = record {
  continued = λ j old stored.
      let c = follows.continued j old stored in
      record {
        row = c.row;
        stored = find-append (is_sprint j) db.sprints _ c.stored;
        manifest = c.manifest;
        course = c.course;
      };
}

pub authorize-Follows :
    (manifest : SprintManifest) (db : Db) {before : Db}
    → Follows before db
    → Follows before (authorize manifest db).1
unfolding authorize
authorize-Follows manifest db follows = elim (Option-cases (find_sprint manifest.sprint_id db)) [
  | inr (row, found) ↦ elim (Bool-cases (same_manifest row.manifest manifest)) [
    | inl same ↦ rw (found, authorize) (rw same follows)
    | inr other ↦ rw (found, authorize) (rw other follows)
  ]
  | inl absent ↦ elim (Bool-cases (any (is_rival manifest) db.sprints)) [
    | inl taken ↦ rw (absent, authorize) (rw taken follows)
    | inr free ↦ rw (absent, authorize) (rw free (insert-Follows manifest db follows))
  ]
]
