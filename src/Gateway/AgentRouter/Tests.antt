-- ===== src/Gateway/AgentRouter/Tests.antt =====
-- A company with two developers, one of them away, and a tester.
use nexus_ai_team.Prelude.{◌≡◌, refl, String, none, some, [], ◌∷◌, find}
use nexus_ai_team.Prelude.Dict.{Dict}
use nexus_ai_team.Gateway.AgentRouter.{AgentInfo, load_registry, route, route_to_department}
use nexus_ai_team.Gateway.AgentRouter.Choice.{is_available, candidates, route_lem}
use nexus_ai_team.Gateway.AgentRouter.Departments.{Answers, route_to_department-Answers}

abbrev member : (department status : String) → AgentInfo
member department status = record { department = some department; status = some status }

abbrev company : Dict AgentInfo
company =
    ("backend_dev", member "engineering" "inactive")
    ∷ ("eve", member "engineering" "active")
    ∷ ("qa_tester", member "qa" "active")
    ∷ ("ceo", member "executive" "active")
    ∷ []

routes :
    (route (load_registry (some company)) "Code" none [] ≡ some "eve")
    × (route (load_registry (some company)) "code" (some "qa_tester") [] ≡ some "qa_tester")
    × (route (load_registry (some company)) "dance" none [] ≡ some "ceo")
    × (route (load_registry (some company)) "code" none ("eve" ∷ []) ≡ none)
unfolding route load_registry
routes = (refl, refl, refl, refl)

route_lem_example :
    route (load_registry (some company)) "Code" (some "backend_dev") []
    ≡ find
        (is_available (load_registry (some company)) [])
        (candidates (load_registry (some company)) "Code" (some "backend_dev"))
route_lem_example = route_lem (load_registry (some company)) [] "Code" (some "backend_dev")

route_to_department-Answers_example :
    Answers
      (load_registry (some company))
      company
      "engineering"
      ("eve" ∷ [])
      (route_to_department (load_registry (some company)) "engineering" ("eve" ∷ []))
route_to_department-Answers_example = route_to_department-Answers company "engineering" ("eve" ∷ [])
