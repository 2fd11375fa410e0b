-- ===== src/Gateway/AgentRouter.antt =====
-- gateway/agent_router.py. The parsed registry is an argument: None when there is no file or it
-- cannot be parsed. Of an agent only the department and the status are read.
pub mod Choice
pub mod Departments
mod Tests
use nexus_ai_team.Prelude.{
  String, Bool, true, false, not, ◌==◌, ◌&&◌, Option, none, some, List, [], ◌∷◌, get_or, any,
  if◌then◌else◌,
}
use nexus_ai_team.Prelude.Text.{lower, nonempty}
use nexus_ai_team.Prelude.Dict.{Dict, lookup, add_to, items_at}

pub record AgentInfo : Type 0 where
  pub department : Option String
  pub status : Option String

pub record AgentRouter : Type 0 where
  pub agents : Dict AgentInfo
  pub departments : Dict (List String)

abbrev pub task_department_map : Dict String
task_department_map =
    ("code", "engineering")
    ∷ ("implement", "engineering")
    ∷ ("refactor", "engineering")
    ∷ ("build", "engineering")
    ∷ ("deploy", "engineering")
    ∷ ("frontend", "engineering")
    ∷ ("backend", "engineering")
    ∷ ("devops", "engineering")
    ∷ ("infra", "engineering")
    ∷ ("ci", "engineering")
    ∷ ("cd", "engineering")
    ∷ ("test", "qa")
    ∷ ("qa", "qa")
    ∷ ("bug", "qa")
    ∷ ("regression", "qa")
    ∷ ("uat", "qa")
    ∷ ("design", "product")
    ∷ ("ui", "product")
    ∷ ("ux", "product")
    ∷ ("feature", "product")
    ∷ ("roadmap", "product")
    ∷ ("spec", "product")
    ∷ ("security", "it")
    ∷ ("audit", "it")
    ∷ ("network", "it")
    ∷ ("firewall", "it")
    ∷ ("monitoring", "it")
    ∷ ("hire", "hr")
    ∷ ("recruit", "hr")
    ∷ ("onboard", "hr")
    ∷ ("interview", "hr")
    ∷ ("strategy", "executive")
    ∷ ("report", "executive")
    ∷ ("brief", "executive")
    ∷ ("planning", "executive")
    ∷ []

abbrev pub department_role_priority : Dict (List String)
department_role_priority =
    ("engineering", "eng_manager" ∷ "backend_dev" ∷ "frontend_dev" ∷ "devops" ∷ [])
    ∷ ("qa", "qa_lead" ∷ "qa_tester" ∷ [])
    ∷ ("product", "pm" ∷ "designer" ∷ [])
    ∷ ("it", "it_admin" ∷ "sec_analyst" ∷ [])
    ∷ ("hr", "hr" ∷ "recruiter" ∷ [])
    ∷ ("executive", "ceo" ∷ "exec_assistant" ∷ [])
    ∷ ("dept-gateway", "dept-gw-manager" ∷ "dept-gw-dev-01" ∷ "dept-gw-qa" ∷ [])
    ∷ []

abbrev pub department_of : AgentInfo → String
department_of info = get_or info.department "unknown"

-- The ids of each department, in the order of the registry.
unfoldable pub index_departments : Dict AgentInfo → Dict (List String) → Dict (List String)
unfolding add_to
index_departments [] dept_map = dept_map
index_departments ((agent_id, info) ∷ agents) dept_map =
    index_departments agents (add_to (department_of info) agent_id dept_map)

-- A new router, and a router after a reload.
unfoldable pub load_registry : Option (Dict AgentInfo) → AgentRouter
unfolding index_departments
load_registry none = record { agents = []; departments = [] }
load_registry (some agents) = record { agents = agents; departments = index_departments agents [] }

abbrev pub status_is_active : AgentInfo → Bool
status_is_active info = get_or info.status "" == "active"

unfoldable pub is_active : AgentRouter → String → Bool
unfolding lookup
is_active r agent_id = elim (lookup agent_id r.agents) [
  | none ↦ false
  | some info ↦ status_is_active info
]

unfoldable pub get_active_agents : Dict AgentInfo → Dict AgentInfo
get_active_agents [] = []
get_active_agents ((agent_id, info) ∷ agents) =
    let rest = get_active_agents agents in
    if status_is_active info then (agent_id, info) ∷ rest else rest

active_of : AgentRouter → List String → List String
unfolding is_active
active_of r [] = []
active_of r (a ∷ ids) = let rest = active_of r ids in if is_active r a then a ∷ rest else rest

unfoldable pub get_department_members : AgentRouter → String → List String
unfolding active_of items_at
get_department_members r department = active_of r (items_at department r.departments)

unfoldable pub infer_department : String → Option String
unfolding lower lookup
infer_department task_type = lookup (lower task_type) task_department_map

-- The loop over some agents, which passes over the excluded ones.
unfoldable pub first_available : AgentRouter → (exclude : List String) → List String → Option String
unfolding is_active
first_available r exclude [] = none
first_available r exclude (a ∷ ids) =
    if any (λ x. x == a) exclude
    then first_available r exclude ids
    else if is_active r a
    then some a
    else first_available r exclude ids

or_else : Option String → Option String → Option String
or_else none other = other
or_else (some a) other = some a

unfoldable pub route_to_department : AgentRouter → String → (exclude : List String) → Option String
unfolding first_available items_at or_else
route_to_department r department exclude =
    or_else (first_available r exclude (items_at department department_role_priority))
      (first_available r exclude (items_at department r.departments))

route_unpreferred : AgentRouter → Option String → (exclude : List String) → Option String
unfolding route_to_department is_active
route_unpreferred r none exclude =
    if not (any (λ x. x == "ceo") exclude) && is_active r "ceo" then some "ceo" else none
route_unpreferred r (some department) exclude = route_to_department r department exclude

unfoldable pub route :
    AgentRouter
    → (task_type : String) → (preferred_agent : Option String) → (exclude : List String)
    → Option String
unfolding infer_department is_active route_unpreferred
route r task_type preferred_agent exclude =
    let preferred = get_or preferred_agent "" in
    if nonempty preferred && not (any (λ x. x == preferred) exclude) && is_active r preferred
    then some preferred
    else route_unpreferred r (infer_department task_type) exclude
