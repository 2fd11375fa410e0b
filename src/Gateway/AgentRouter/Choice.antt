-- ===== src/Gateway/AgentRouter/Choice.antt =====
-- Which agent the router picks.
use nexus_ai_team.Prelude.{
  ◌≡◌, refl, ap, ◌∙◌, sym, Bool, not, ◌==◌, ◌&&◌, Option, none, some, List, [], ◌∷◌, ◌++◌, get_or,
  any, find, inl, inr, Bool-cases, if◌then◌else◌,
}
use Prim.Native.String.{String}
use nexus_ai_team.Prelude.Text.{nonempty}
use nexus_ai_team.Prelude.Dict.{items_at}
use nexus_ai_team.Gateway.AgentRouter.{
  AgentRouter, department_role_priority, is_active, infer_department, first_available, or_else,
  route_to_department, route_unpreferred, route,
}

-- An agent that may be picked.
unfoldable pub is_available : AgentRouter → (exclude : List String) → String → Bool
unfolding is_active
is_available r exclude a = not (any (λ x. x == a) exclude) && is_active r a

-- Who is asked for a department, and for a task whose department is unknown.
unfoldable pub asked_first : AgentRouter → Option String → List String
unfolding items_at
asked_first r none = "ceo" ∷ []
asked_first r (some department) =
    items_at department department_role_priority ++ items_at department r.departments

preferred_first : (preferred : String) → List String → List String
preferred_first String.[] ids = ids
preferred_first (String.◌∷◌ c name) ids = String.◌∷◌ c name ∷ ids

-- Everyone who may be asked, in the order of preference.
unfoldable pub candidates :
    AgentRouter → (task_type : String) → (preferred_agent : Option String) → List String
unfolding infer_department asked_first preferred_first
candidates r task_type preferred_agent =
    preferred_first (get_or preferred_agent "") (asked_first r (infer_department task_type))

module _ (r : AgentRouter) (exclude : List String) where
  first_available_lem :
      (ids : List String) → first_available r exclude ids ≡ find (is_available r exclude) ids
  unfolding first_available is_available
  first_available_lem [] = refl
  first_available_lem (a ∷ ids) = elim (Bool-cases (any (λ x. x == a) exclude)) [
    | inl y ↦ rw y (first_available_lem ids)
    | inr n ↦ elim (Bool-cases (is_active r a)) [
      | inl y ↦ rw (n, y)
      | inr m ↦ rw (n, m) (first_available_lem ids)
    ]
  ]

  find-append :
      (ids others : List String)
      → find (is_available r exclude) (ids ++ others)
        ≡ or_else (find (is_available r exclude) ids) (find (is_available r exclude) others)
  unfolding or_else
  find-append [] others = refl
  find-append (a ∷ ids) others = elim (Bool-cases (is_available r exclude a)) [
    | inl y ↦ rw y
    | inr n ↦ rw n (find-append ids others)
  ]

  pub department_lem :
      (department : String)
      → route_to_department r department exclude
        ≡ find
            (is_available r exclude)
            (items_at department department_role_priority ++ items_at department r.departments)
  unfolding route_to_department
  department_lem department =
      ap (λ o. or_else o (first_available r exclude (items_at department r.departments)))
        (first_available_lem (items_at department department_role_priority))
      ∙ ap (or_else (find (is_available r exclude) (items_at department department_role_priority)))
          (first_available_lem (items_at department r.departments))
      ∙ sym (
          find-append (items_at department department_role_priority)
            (items_at department r.departments))

  unpreferred_lem :
      (department : Option String)
      → route_unpreferred r department exclude
        ≡ find (is_available r exclude) (asked_first r department)
  unfolding route_unpreferred asked_first is_available
  unpreferred_lem none = refl
  unpreferred_lem (some department) = department_lem department

  preferring :
      (preferred : String) (department : Option String)
      → (if nonempty preferred && not (any (λ x. x == preferred) exclude) && is_active r preferred
          then some preferred
          else route_unpreferred r department exclude)
        ≡ find (is_available r exclude) (preferred_first preferred (asked_first r department))
  unfolding preferred_first is_available
  preferring String.[] department = unpreferred_lem department
  preferring (String.◌∷◌ c name) department =
      ap
        (λ o.
          if not (any (λ x. x == String.◌∷◌ c name) exclude) && is_active r (String.◌∷◌ c name)
          then some (String.◌∷◌ c name)
          else o)
        (unpreferred_lem department)

  -- The agent of a task is the first one that is active and not excluded, among the preferred one,
  -- and then the CEO if the task's type is unknown, and otherwise the roles of the department by
  -- priority and its other members in the order of the registry.
  pub route_lem :
      (task_type : String) (preferred_agent : Option String)
      → route r task_type preferred_agent exclude
        ≡ find (is_available r exclude) (candidates r task_type preferred_agent)
  unfolding route candidates
  route_lem task_type preferred_agent =
      preferring (get_or preferred_agent "") (infer_department task_type)
