-- ===== src/Domain/Projects/Registry.antt =====
-- What a registry of src/factory/domain/projects.py guarantees.
use mathlib.Core.Option.{some-injective}
use ai_factory_lab.Common.{
  subst, Option-cases, String, ◌≡◌, refl, sym, Bool, true, false, Option, none, some, List, [], ◌∷◌,
  map, ◌==◌, string_eq, ==_refl, Bool-cases, inl, inr, find, contains, arith,
}
use ai_factory_lab.Domain.Errors.{ok}
use ai_factory_lab.Domain.Projects.{
  ProjectProfile, ProjectRegistry, has_duplicates, new_registry, matches_repository, resolve,
  for_repository,
}

-- Membership by position in the list.
pub data Among {A : Type 0} (a : A) : List A → Type 0 where
  first : {xs : List A} → Among a (a ∷ xs)
  later : {x : A} {xs : List A} → Among a xs → Among a (x ∷ xs)

module _ {A : Type 0} (key : A → String) where
  contains-key : {a : A} {xs : List A} → Among a xs → contains (map key xs) (key a) ≡ true
  contains-key {a} (first {xs = xs}) = rw (==_refl (key a))
  contains-key {a} (later {x = x} {xs = xs} m) = ground (arith, contains-key m)

  -- With no key twice, looking a member's key up finds that member.
  find-key :
      {a : A} {xs : List A}
      → has_duplicates (map key xs) ≡ false
      → Among a xs
      → find (λ x. key x == key a) xs ≡ some a
  unfolding has_duplicates
  find-key {a} fresh (first {xs = xs}) = rw (==_refl (key a))
  find-key {a} fresh (later {x = x} {xs = xs} m) =
      let tail : has_duplicates (map key xs) ≡ false = ground (arith, fresh) in
      ground (arith, find-key tail m, contains-key m, string_eq.beq_iff (key x) (key a), fresh)

find-Among :
    {A : Type 0} (p : A → Bool) (xs : List A) {a : A}
    → find p xs ≡ some a
    → Among a xs × (p a ≡ true)
find-Among p [] h = cc
find-Among p (x ∷ xs) {a} h = elim (Bool-cases (p x)) [
  | inl hit ↦
      let e : x ≡ a = some-injective x a (rw hit at h) in
      (subst (λ b. Among b (x ∷ xs)) e first, subst (λ b. p b ≡ true) e hit)
  | inr miss ↦ let (m, q) = find-Among p xs {a = a} (rw miss at h) in (later m, q)
]

matches_repository_lem :
    (repository : Option String) (q : ProjectProfile) {profile : ProjectProfile}
    → matches_repository repository q ≡ ok profile
    → (q ≡ profile) × ((slug : String) → repository ≡ some slug → slug ≡ profile.repository_slug)
unfolding matches_repository
matches_repository_lem none q h = (cc, λ slug e. cc)
matches_repository_lem (some named) q h =
    (ground arith, λ slug e. ground (arith, string_eq.beq_iff named q.repository_slug))

module _ (profiles : List ProjectProfile) {registry : ProjectRegistry}
    (built : new_registry profiles ≡ ok registry) where
  registry_profiles :
      (registry.profiles ≡ profiles)
      × (has_duplicates (map (λ p. p.project_id) profiles) ≡ false)
      × (has_duplicates (map (λ p. p.repository_slug) profiles) ≡ false)
  unfolding new_registry
  registry_profiles = ground arith

  -- In a registry that was accepted, each listed profile is the one that its project id resolves to,
  -- with its repository and without one, and the one that its repository leads to.
  pub resolve_listed :
      {profile : ProjectProfile}
      → Among profile profiles
      → (resolve registry profile.project_id (some profile.repository_slug) ≡ ok profile)
        × (resolve registry profile.project_id none ≡ ok profile)
        × (for_repository registry profile.repository_slug ≡ ok profile)
  unfolding resolve matches_repository for_repository
  resolve_listed {profile} listed =
      let (same, ids, repositories) = registry_profiles in
      let by_id = find-key (λ (p : ProjectProfile). p.project_id) ids listed in
      let by_repository =
        find-key (λ (p : ProjectProfile). p.repository_slug) repositories listed in
      (
        rw same (rw (by_id, resolve) (rw (==_refl profile.repository_slug))),
        rw same (rw (by_id, resolve)),
        rw (same, by_repository),
      )

  resolve_sound :
      (project_id : String) (repository : Option String) {profile : ProjectProfile}
      → resolve registry project_id repository ≡ ok profile
      → Among profile profiles
        × (profile.project_id ≡ project_id)
        × ((slug : String) → repository ≡ some slug → slug ≡ profile.repository_slug)
  unfolding resolve
  resolve_sound project_id repository {profile} h =
      elim (Option-cases (find (λ p. p.project_id == project_id) registry.profiles)) [
        | inl missing ↦ cc (rw (missing, resolve) at h)
        | inr (q, found) ↦
            let (same, asked) = matches_repository_lem repository q (rw (found, resolve) at h) in
            let (listed, hit) =
              find-Among (λ p. p.project_id == project_id) registry.profiles found in
            (
              subst (λ r. Among r profiles) same
                  (subst (λ l. Among q l) registry_profiles.0 listed),
              subst (λ (r : ProjectProfile). r.project_id ≡ project_id) same
                  ((string_eq.beq_iff q.project_id project_id).0 hit),
              asked,
            )
      ]

  -- What a project id and a repository resolve to is a listed profile with that id and that
  -- repository.
  pub resolve_named :
      (project_id slug : String) {profile : ProjectProfile}
      → resolve registry project_id (some slug) ≡ ok profile
      → Among profile profiles
        × (profile.project_id ≡ project_id)
        × (profile.repository_slug ≡ slug)
  resolve_named project_id slug {profile} h =
      let (listed, id, asked) = resolve_sound project_id (some slug) {profile = profile} h in
      (listed, id, sym (asked slug refl))
