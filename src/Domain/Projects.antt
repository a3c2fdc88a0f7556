-- ===== src/Domain/Projects.antt =====
-- src/factory/domain/projects.py: the approved projects. The checks of a profile's own fields are
-- not modelled; `context_profile`, `deploy_policy` and the other fields that no modelled code reads
-- are left out.
pub mod Registry
use ai_factory_lab.Common.{
  String, Bool, true, false, not, ◌&&◌, ◌||◌, Option, none, some, List, [], ◌∷◌, map, ◌==◌,
  string_eq, if◌then◌else◌, find, contains,
}
use ai_factory_lab.Domain.Models.{QualityGateSpec}
use ai_factory_lab.Domain.Errors.{Result, ok, err, or_raise, project_routing}

pub record ProjectProfile : Type 0 where
  pub project_id : String
  pub repository_slug : String
  pub base_ref : String
  pub gates : List QualityGateSpec

-- `len(set(xs)) != len(xs)`
unfoldable pub has_duplicates : List String → Bool
has_duplicates [] = false
has_duplicates (x ∷ xs) = contains xs x || has_duplicates xs

-- The profiles of a registry; the two dictionaries are read by search, since no key stands twice.
pub record ProjectRegistry : Type 0 where
  pub profiles : List ProjectProfile

is_nil : List ProjectProfile → Bool
is_nil [] = true
is_nil (x ∷ xs) = false

-- `ProjectRegistry.__init__`
unfoldable pub new_registry : List ProjectProfile → Result ProjectRegistry
unfolding is_nil
new_registry profiles =
    if is_nil profiles
      || has_duplicates (map (λ p. p.project_id) profiles)
      || has_duplicates (map (λ p. p.repository_slug) profiles)
    then err project_routing
    else ok (record { profiles = profiles })

-- The test of `resolve` on the profile that it found.
unfoldable pub matches_repository : Option String → ProjectProfile → Result ProjectProfile
matches_repository none profile = ok profile
matches_repository (some slug) profile =
    if slug == profile.repository_slug then ok profile else err project_routing

unfoldable pub resolve : ProjectRegistry → String → Option String → Result ProjectProfile
resolve registry project_id repository_slug =
    elim (find (λ p. p.project_id == project_id) registry.profiles) [
      | none ↦ err project_routing
      | some profile ↦ matches_repository repository_slug profile
    ]

unfoldable pub for_repository : ProjectRegistry → String → Result ProjectProfile
for_repository registry repository_slug =
    or_raise project_routing (find (λ p. p.repository_slug == repository_slug) registry.profiles)
