-- ===== src/Gateway/SkillRegistry.antt =====
-- gateway/skill_registry.py: the queries on the skills that were loaded. The file of the registry
-- may make any JSON value the skills; it is not read or written here.
pub mod Capabilities
mod Tests
use nexus_ai_team.Prelude.{String, Bool, true, false, Option, none, some, List, [], ◌∷◌}
use nexus_ai_team.Prelude.Dict.{Dict, lookup, add_to}

-- What a loop over the value under "capabilities" meets: the default of a missing one, the items of
-- a list, the letters of a text, the keys of an object; a number, a Boolean and null raise
-- TypeError. The items of a list are texts here.
pub data CapabilityValue : Type 0 where
  missing : CapabilityValue
  listed : List String → CapabilityValue
  letters : (one_each : List String) → CapabilityValue
  object : (keys : List String) → CapabilityValue
  not_iterable : CapabilityValue

-- The metadata of a skill: a dict, or another value.
pub data Meta : Type 0 where
  metadata : (fields : Dict String) → CapabilityValue → Meta
  other : String → Meta

abbrev pub Skills : Type 0
Skills = Dict Meta

pub record Registry : Type 0 where
  pub skills : Skills

-- for cap in meta.get("capabilities", []), if meta is a dict: what the loop meets, and none if it
-- raises.
abbrev pub iterated : CapabilityValue → Option (List String)
iterated missing = some []
iterated (listed caps) = some caps
iterated (letters one_each) = some one_each
iterated (object keys) = some keys
iterated not_iterable = none

abbrev pub capabilities_of : Meta → Option (List String)
capabilities_of (metadata fields capabilities) = iterated capabilities
capabilities_of (other shown) = some []

-- Each capability that a skill lists gets the skill's name.
add_capabilities : (name : String) → List String → Dict (List String) → Dict (List String)
unfolding add_to
add_capabilities name [] cap_map = cap_map
add_capabilities name (cap ∷ caps) cap_map = add_capabilities name caps (add_to cap name cap_map)

collect_capabilities : Skills → Dict (List String) → Option (Dict (List String))
unfolding add_capabilities
collect_capabilities [] cap_map = some cap_map
collect_capabilities ((name, meta) ∷ skills) cap_map = elim (capabilities_of meta) [
  | none ↦ none
  | some caps ↦ collect_capabilities skills (add_capabilities name caps cap_map)
]

unfoldable pub get_skill : String → Registry → Option Meta
unfolding lookup
get_skill name r = lookup name r.skills

unfoldable pub has_skill : String → Registry → Bool
unfolding lookup
has_skill name r = elim (lookup name r.skills) [ none ↦ false | some meta ↦ true ]

-- none if the loop over the capabilities of a skill raises
unfoldable pub get_capabilities : Registry → Option (Dict (List String))
unfolding collect_capabilities
get_capabilities r = collect_capabilities r.skills []
