-- ===== src/Store/Links/Growth.antt =====
-- How the rows of src/factory/infrastructure/persistence/backlog_sqlite.py grow: a work item's row stays
-- the only one, and once a write has begun it does not go back.
use ai_factory_lab.Common.{
  ℕ, ◌+◌, ◌≤◌, String, ◌≡◌, refl, Bool, true, false, not, ◌&&◌, List, [], ◌∷◌, ◌==◌, nat_eq,
  string_eq, any, count, count-append, count-update_where, count-grows, count-gains, arith, inl,
  inr, Bool-cases,
}
use ai_factory_lab.Domain.Sprints.{WorkItem, MaterializedIssue}
use ai_factory_lab.Store.Links.{
  LinkRow, Links, is_reserved, is_link, new_link, insert_link, reserve, is_open_for, to_posting,
  begin_write, is_unlinked, to_linked, breaks_link, link_issue, complete, record_rejection,
}

-- The rows of a work item, those of them that a write may have been begun for, and its posts.
abbrev pub named : String → String → WorkItem → Bool
named provider external_id item = item.provider == provider && item.external_id == external_id

abbrev pub rows_of : String → String → Links → ℕ
rows_of provider external_id links = count (is_link provider external_id) links.rows

abbrev pub is_begun : String → String → LinkRow → Bool
is_begun provider external_id row = is_link provider external_id row && not (is_reserved row.state)

abbrev pub begun_of : String → String → Links → ℕ
begun_of provider external_id links = count (is_begun provider external_id) links.rows

module _ (p e : String) where
  -- The links of the second are no worse.
  pub record Later (a b : Links) : Type 0 where
    pub still_one : rows_of p e a ≤ 1 → rows_of p e b ≤ 1
    pub still_begun : begun_of p e a ≤ begun_of p e b

  Later-refl : (a : Links) → Later a a
  Later-refl a = record { still_one = λ h. h; still_begun = omega arith }

  is_link-key :
      (item : WorkItem) (row : LinkRow)
      → named p e item ≡ true
      → is_link item.provider item.external_id row ≡ is_link p e row
  unfolding is_link
  is_link-key item row h =
      ground (arith, h, string_eq.beq_iff item.provider p, string_eq.beq_iff item.external_id e)

  unlinked_none :
      (item : WorkItem) (rows : List LinkRow)
      → named p e item ≡ true
      → any (is_link item.provider item.external_id) rows ≡ false
      → count (is_link p e) rows ≡ 0
  unlinked_none item [] h none_yet = refl
  unlinked_none item (row ∷ rows) h none_yet =
      ground (arith, h, none_yet, is_link-key item row h, unlinked_none item rows h)

  new_link-key : (item : WorkItem) → is_link p e (new_link item) ≡ named p e item
  unfolding is_link
  new_link-key item = refl

  insert_link-one :
      (item : WorkItem) (rows : List LinkRow)
      → count (is_link p e) rows ≤ 1
      → count (is_link p e) (insert_link item rows) ≤ 1
  unfolding insert_link
  insert_link-one item rows one =
      elim (Bool-cases (any (is_link item.provider item.external_id) rows)) [
        | inl known ↦ rw known one
        | inr new ↦ rw new (
            ground (
              arith,
              one,
              count-append (is_link p e) rows (new_link item ∷ []),
              new_link-key item,
              λ (h : named p e item ≡ true). unlinked_none item rows h new,
            ))
      ]

  insert_link-begun :
      (item : WorkItem) (rows : List LinkRow)
      → count (is_begun p e) rows ≤ count (is_begun p e) (insert_link item rows)
  unfolding insert_link
  insert_link-begun item rows =
      ground (arith, count-append (is_begun p e) rows (new_link item ∷ []))

  pub reserve-Later : (item : WorkItem) (links : Links) → Later links (reserve item links).1
  unfolding reserve
  reserve-Later item links = record {
    still_one = insert_link-one item links.rows;
    still_begun = insert_link-begun item links.rows;
  }

  posting_begun : (row : LinkRow) → is_begun p e row ≡ true → is_begun p e (to_posting row) ≡ true
  unfolding is_link is_reserved
  posting_begun row h = ground (arith, h)

  linked_begun :
      (issue : MaterializedIssue) (row : LinkRow)
      → is_begun p e row ≡ true
      → is_begun p e (to_linked issue row) ≡ true
  unfolding is_link is_reserved
  linked_begun issue row h = ground (arith, h)

  pub begin_write-Later : (item : WorkItem) (links : Links) → Later links (begin_write item links).1
  unfolding begin_write is_link
  begin_write-Later item links =
      let same =
        count-update_where (is_link p e) (is_open_for item) to_posting links.rows (λ x. refl) in
      record {
        still_one = λ h. rw same h;
        still_begun =
            count-grows (is_begun p e) (is_open_for item) to_posting links.rows posting_begun;
      }

  link_issue-Later :
      (item : WorkItem) (issue : MaterializedIssue) (links : Links)
      → Later links (link_issue item issue links).1
  unfolding link_issue is_link
  link_issue-Later item issue links = elim (Bool-cases (any (is_unlinked item) links.rows)) [
    | inr linked ↦ rw linked (Later-refl links)
    | inl unlinked ↦ elim (Bool-cases (any (breaks_link item issue) links.rows)) [
      | inl taken ↦ rw (unlinked, taken) (Later-refl links)
      | inr free ↦
          let same =
            count-update_where (is_link p e) (is_unlinked item) (to_linked issue) links.rows
              (λ x. refl) in
          rw (unlinked, free)
            (record {
              still_one = λ h. rw same h;
              still_begun =
                  count-grows (is_begun p e) (is_unlinked item) (to_linked issue) links.rows
                    (linked_begun issue);
            })
    ]
  ]

  pub complete-Later :
      (item : WorkItem) (issue : MaterializedIssue) (links : Links)
      → Later links (complete item issue links).1
  unfolding complete
  complete-Later item issue links =
      elim (Bool-cases
        (issue.repository_slug == item.target_repository && not (issue.number == 0))) [
          | inl right ↦ rw right (link_issue-Later item issue links)
          | inr wrong ↦ rw wrong (Later-refl links)
        ]

  open_unbegun :
      (item : WorkItem) (row : LinkRow) → is_open_for item row ≡ true → is_begun p e row ≡ false
  unfolding is_open_for
  open_unbegun item row h = ground (arith, h)

  opened_begun :
      (item : WorkItem) (row : LinkRow)
      → named p e item ≡ true
      → is_open_for item row ≡ true
      → is_begun p e (to_posting row) ≡ true
  unfolding is_open_for is_link is_reserved
  opened_begun item row h opened =
      ground
        (arith, h, opened, string_eq.beq_iff item.provider p, string_eq.beq_iff item.external_id e)

  -- The compare-and-swap that succeeds for the item begins one more row.
  pub begin_write-begun :
      (item : WorkItem) (links : Links)
      → named p e item ≡ true
      → (begin_write item links).0 ≡ true
      → begun_of p e (begin_write item links).1 ≡ begun_of p e links + 1
  unfolding begin_write
  begin_write-begun item links h mine = ground (
    arith,
    mine,
    nat_eq.beq_iff (count (is_open_for item) links.rows) 1,
    count-gains (is_begun p e) (is_open_for item) to_posting links.rows (open_unbegun item)
        (λ row. opened_begun item row h),
  )

  pub record_rejection-rows :
      (item : WorkItem) (links : Links) → (record_rejection item links).rows ≡ links.rows
  unfolding record_rejection
  record_rejection-rows item links = ground arith

  pub begun_rows : (rows : List LinkRow) → count (is_begun p e) rows ≤ count (is_link p e) rows
  begun_rows [] = omega arith
  begun_rows (row ∷ rows) = ground (arith, begun_rows rows)
