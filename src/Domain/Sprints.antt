-- ===== src/Domain/Sprints.antt =====
-- src/factory/domain/sprint.py and the data of src/factory/domain/backlog.py: an ordered, authorised
-- list of work items. `wip_limit`, the stop conditions and the pipeline have one legal value each, so
-- a manifest is its identifier and its steps.
use ai_factory_lab.Common.{
  ℕ, zero, suc, String, ◌≡◌, refl, Bool, true, false, ◌&&◌, List, [], ◌∷◌, Eq, nat_beq,
  code_beq_iff, ◌==◌, string_eq, any,
}

pub record WorkItem : Type 0 where
  pub provider : String
  pub external_id : String
  pub title : String
  pub body : String
  pub target_repository : String
  pub eligible : Bool
  pub dependencies_satisfied : Bool
  pub project_id : String

pub record MaterializedIssue : Type 0 where
  pub repository_slug : String
  pub number : ℕ
  pub url : String

pub data SprintState : Type 0 where
  active paused cancelled complete : SprintState

abbrev pub sprint_state_rank : SprintState → ℕ
sprint_state_rank SprintState.active = 0
sprint_state_rank SprintState.paused = 1
sprint_state_rank SprintState.cancelled = 2
sprint_state_rank SprintState.complete = 3

abbrev pub sprint_state_of_rank : ℕ → SprintState
sprint_state_of_rank zero = SprintState.active
sprint_state_of_rank (suc zero) = SprintState.paused
sprint_state_of_rank (suc (suc zero)) = SprintState.cancelled
sprint_state_of_rank _ = SprintState.complete

pub sprint_state_of_rank-rank : (a : SprintState) → sprint_state_of_rank (sprint_state_rank a) ≡ a
sprint_state_of_rank-rank SprintState.active = refl
sprint_state_of_rank-rank SprintState.paused = refl
sprint_state_of_rank-rank SprintState.cancelled = refl
sprint_state_of_rank-rank SprintState.complete = refl

instance abbrev pub sprint_state_eq : Eq SprintState
sprint_state_eq = record {
  beq = λ a b. nat_beq (sprint_state_rank a) (sprint_state_rank b);
  beq_iff = code_beq_iff sprint_state_rank sprint_state_of_rank sprint_state_of_rank-rank;
}

pub record SprintStep : Type 0 where
  pub item : WorkItem
  pub dependencies : List String

pub record SprintManifest : Type 0 where
  pub sprint_id : String
  pub steps : List SprintStep

same_flag : Bool → Bool → Bool
same_flag true b = b
same_flag false true = false
same_flag false false = true

-- `==` on work items
unfoldable pub same_item : WorkItem → WorkItem → Bool
unfolding same_flag
same_item a b =
    a.provider == b.provider
    && a.external_id == b.external_id
    && a.title == b.title
    && a.body == b.body
    && a.target_repository == b.target_repository
    && same_flag a.eligible b.eligible
    && same_flag a.dependencies_satisfied b.dependencies_satisfied
    && a.project_id == b.project_id

unfoldable pub same_texts : List String → List String → Bool
same_texts [] [] = true
same_texts (a ∷ as') (b ∷ bs) = a == b && same_texts as' bs
same_texts _ _ = false

unfoldable pub same_steps : List SprintStep → List SprintStep → Bool
unfolding same_item same_texts
same_steps [] [] = true
same_steps (a ∷ as') (b ∷ bs) =
    same_item a.item b.item && same_texts a.dependencies b.dependencies && same_steps as' bs
same_steps _ _ = false

-- The encoded manifests are the same.
unfoldable pub same_manifest : SprintManifest → SprintManifest → Bool
unfolding same_steps
same_manifest a b = a.sprint_id == b.sprint_id && same_steps a.steps b.steps

-- Some step is of the project.
unfoldable pub serves : String → SprintManifest → Bool
serves project_id manifest = any (λ step. step.item.project_id == project_id) manifest.steps

-- Some project has steps of both.
unfoldable pub shares_project : SprintManifest → SprintManifest → Bool
unfolding serves
shares_project a b = any (λ step. serves step.item.project_id b) a.steps
