-- ===== src/Gateway/SkillRegistry/Tests.antt =====
-- A registry of two skills, and one with a skill that has the value null for its capabilities.
use nexus_ai_team.Prelude.{◌≡◌, refl, none, some, [], ◌∷◌}
use nexus_ai_team.Gateway.SkillRegistry.{
  Meta, metadata, listed, not_iterable, Registry, get_capabilities,
}
use nexus_ai_team.Gateway.SkillRegistry.Capabilities.{
  IsMapOf, all_readable, offers, get_capabilities_lem,
}

abbrev search_skill : Meta
search_skill = metadata (("version", "1") ∷ []) (listed ("search" ∷ "read" ∷ []))

abbrev two_skills : Registry
two_skills = record { skills = ("web", search_skill) ∷ ("disk", search_skill) ∷ [] }

abbrev null_skill : Registry
null_skill = record { skills = ("web", search_skill) ∷ ("void", metadata [] not_iterable) ∷ [] }

get_capabilities_lem_example :
    IsMapOf
      (all_readable two_skills.skills)
      (λ name cap. offers name cap two_skills.skills)
      (get_capabilities two_skills)
get_capabilities_lem_example = get_capabilities_lem two_skills

capabilities_sample :
    (get_capabilities two_skills
      ≡ some (("search", "web" ∷ "disk" ∷ []) ∷ ("read", "web" ∷ "disk" ∷ []) ∷ []))
    × (get_capabilities null_skill ≡ none)
unfolding get_capabilities
capabilities_sample = (refl, refl)
