-- ===== src/Gateway/SkillRegistry/Capabilities.antt =====
-- The skills of each capability.
use nexus_ai_team.Prelude.{
  ◌≡◌, refl, String, Bool, true, false, Option, none, some, get_or, ◌==◌, ◌&&◌, ◌||◌, List, [], ◌∷◌,
  ◌++◌, any, inl, inr, Bool-cases, arith,
}
use nexus_ai_team.Prelude.Dict.{Dict, add_to, items_at, items_at-add_to}
use nexus_ai_team.Gateway.SkillRegistry.{
  Skills, Registry, Meta, metadata, other, missing, listed, letters, object, not_iterable,
  add_capabilities, capabilities_of, collect_capabilities, get_capabilities,
}

abbrev pub has : String → List String → Bool
has name names = any (λ x. x == name) names

has-append :
    (name : String) (xs ys : List String) → has name (xs ++ ys) ≡ (has name xs || has name ys)
has-append name [] ys = refl
has-append name (x ∷ xs) ys = ground (arith, has-append name xs ys)

added :
    (name cap : String) (item key : String) (m : Dict (List String))
    → has name (items_at cap (add_to key item m))
      ≡ (has name (items_at cap m) || (item == name) && (key == cap))
added name cap item key m = elim (Bool-cases (key == cap)) [
  | inl y ↦
      rw (items_at-add_to key cap item m, y, has-append name (items_at cap m) (item ∷ []))
        (ground arith)
  | inr n ↦ rw (items_at-add_to key cap item m, n) (ground arith)
]

capabilities_added :
    (name cap skill : String) (caps : List String) (m : Dict (List String))
    → has name (items_at cap (add_capabilities skill caps m))
      ≡ (has name (items_at cap m) || (skill == name) && has cap caps)
unfolding add_capabilities
capabilities_added name cap skill [] m = ground arith
capabilities_added name cap skill (c ∷ caps) m =
    ground
      (arith, capabilities_added name cap skill caps (add_to c skill m), added name cap skill c m)

-- Whether a skill's capabilities can be looped over.
abbrev pub is_readable : Meta → Bool
is_readable meta = elim (capabilities_of meta) [ none ↦ false | some caps ↦ true ]

abbrev pub all_readable : Skills → Bool
all_readable [] = true
all_readable ((name, meta) ∷ skills) = is_readable meta && all_readable skills

-- Whether a list of skills has one of a name with a capability.
abbrev pub offers : (name cap : String) → Skills → Bool
offers name cap skills =
    any (λ e. (e.0 == name) && has cap (get_or (capabilities_of e.1) [])) skills

-- `found` is a map if all the skills can be read, and then a name stands in the list of a
-- capability exactly when `expected` says so; otherwise there is none.
abbrev pub IsMapOf :
    (readable : Bool) → (expected : String → String → Bool) → Option (Dict (List String)) → Type 0
IsMapOf readable expected none = readable ≡ false
IsMapOf readable expected (some m) =
    (readable ≡ true) × ((name cap : String) → has name (items_at cap m) ≡ expected name cap)

abbrev joined : Skills → Dict (List String) → String → String → Bool
joined skills m name cap = has name (items_at cap m) || offers name cap skills

later :
    (skill : String) (caps : List String) (readable : Bool) (skills : Skills)
    (m : Dict (List String)) (found : Option (Dict (List String)))
    → IsMapOf readable (joined skills (add_capabilities skill caps m)) found
    → IsMapOf readable
        (λ name cap.
          has name (items_at cap m) || ((skill == name) && has cap caps || offers name cap skills))
        found
later skill caps readable skills m none h = h
later skill caps readable skills m (some found) h =
    (h.0, λ name cap. ground (arith, h.1 name cap, capabilities_added name cap skill caps m))

collected :
    (skills : Skills) (m : Dict (List String))
    → IsMapOf (all_readable skills) (joined skills m) (collect_capabilities skills m)
unfolding collect_capabilities
collected [] m = (refl, λ name cap. ground arith)
collected ((skill, metadata fields missing) ∷ skills) m =
    later skill [] _ skills m _ (collected skills (add_capabilities skill [] m))
collected ((skill, metadata fields (listed caps)) ∷ skills) m =
    later skill caps _ skills m _ (collected skills (add_capabilities skill caps m))
collected ((skill, metadata fields (letters caps)) ∷ skills) m =
    later skill caps _ skills m _ (collected skills (add_capabilities skill caps m))
collected ((skill, metadata fields (object caps)) ∷ skills) m =
    later skill caps _ skills m _ (collected skills (add_capabilities skill caps m))
collected ((skill, metadata fields not_iterable) ∷ skills) m = refl
collected ((skill, other shown) ∷ skills) m =
    later skill [] _ skills m _ (collected skills (add_capabilities skill [] m))

-- If the capabilities of every skill can be looped over, there is a map, and a name stands in its
-- list of a capability exactly when a skill of that name has the capability. Otherwise the query
-- raises.
pub get_capabilities_lem :
    (r : Registry)
    → IsMapOf (all_readable r.skills) (λ name cap. offers name cap r.skills) (get_capabilities r)
unfolding get_capabilities items_at
get_capabilities_lem r = collected r.skills []
