-- ===== src/Gateway/AgentRouter/Departments.antt =====
-- The index of the departments has every agent of the registry.
use nexus_ai_team.Prelude.{
  ◌≡◌, refl, subst, sym, String, Bool, true, false, ◌==◌, Option, none, some, List, [], ◌∷◌, ◌++◌,
  find, All, inl, inr, Bool-cases, eq_iff,
}
use nexus_ai_team.Prelude.Dict.{Dict, add_to, items_at, items_at-add_to}
use nexus_ai_team.Gateway.AgentRouter.{
  AgentInfo, AgentRouter, department_role_priority, department_of, index_departments, load_registry,
  route_to_department,
}
use nexus_ai_team.Gateway.AgentRouter.Choice.{is_available, department_lem}

find-All : (p : String → Bool) (xs : List String) → find p xs ≡ none → All (λ a. p a ≡ false) xs
find-All p [] h = tt
find-All p (x ∷ xs) h = elim (Bool-cases (p x)) [
  | inl y ↦ let g = rw y at h in cc
  | inr n ↦ (n, find-All p xs (rw n at h))
]

find-passes : (p : String → Bool) (xs : List String) (a : String) → find p xs ≡ some a → p a ≡ true
find-passes p [] a h = cc
find-passes p (x ∷ xs) a h = elim (Bool-cases (p x)) [
  | inl y ↦ let g = rw y at h in cc
  | inr n ↦ find-passes p xs a (rw n at h)
]

All-tail : (P : String → Type 0) (xs ys : List String) → All P (xs ++ ys) → All P xs × All P ys
All-tail P [] ys h = (tt, h)
All-tail P (x ∷ xs) ys h = let t = All-tail P xs ys h.1 in ((h.0, t.0), t.1)

-- What holds of the members of a department holds of each agent of the registry that is in it.
abbrev IsMember : (P : String → Type 0) (department : String) → String × AgentInfo → Type 0
IsMember P department e = department_of e.1 ≡ department → P e.0

other_department :
    (info : AgentInfo) (department : String)
    → (department_of info == department) ≡ false
    → department_of info ≡ department
    → ⊥
other_department info department n e = let y = (eq_iff (department_of info) department).1 e in cc

indexed :
    (P : String → Type 0) (department : String) (agents : Dict AgentInfo)
    (dept_map : Dict (List String))
    → All P (items_at department (index_departments agents dept_map))
    → All P (items_at department dept_map) × All (IsMember P department) agents
unfolding index_departments
indexed P department [] dept_map h = (h, tt)
indexed P department ((agent_id, info) ∷ agents) dept_map h =
    let ih = indexed P department agents (add_to (department_of info) agent_id dept_map) h in
    let here =
      subst (λ xs. All P xs) (items_at-add_to (department_of info) department agent_id dept_map)
        ih.0 in
    elim (Bool-cases (department_of info == department)) [
      | inl y ↦
          let both = All-tail P (items_at department dept_map) (agent_id ∷ []) (rw y at here) in
          (both.0, ((λ _. both.1.0), ih.1))
      | inr n ↦ (rw n at here, ((λ e. absurd (other_department info department n e)), ih.1))
    ]

loaded :
    (agents : Dict AgentInfo)
    → (load_registry (some agents)).departments ≡ index_departments agents []
unfolding load_registry
loaded agents = refl

-- An agent who may be picked, or nobody when each agent of the department is excluded or inactive.
abbrev pub Answers :
    AgentRouter
    → Dict AgentInfo
    → (department : String) → (exclude : List String) → Option String
    → Type 0
Answers r agents department exclude none =
    All (IsMember (λ a. is_available r exclude a ≡ false) department) agents
Answers r agents department exclude (some a) = is_available r exclude a ≡ true

answered :
    (r : AgentRouter) (agents : Dict AgentInfo) (department : String) (exclude : List String)
    (o : Option String)
    → o
      ≡ find
          (is_available r exclude)
          (items_at department department_role_priority ++ items_at department r.departments)
    → r.departments ≡ index_departments agents []
    → Answers r agents department exclude o
answered r agents department exclude none e index =
    let all = find-All (is_available r exclude) _ (sym e) in
    let members = All-tail _ (items_at department department_role_priority) _ all in
    let free : String → Type 0 = λ a. is_available r exclude a ≡ false in
    (indexed free department agents []
      (subst (λ d. All free (items_at department d)) index members.1)).1
answered r agents department exclude (some a) e index =
    find-passes (is_available r exclude) _ a (sym e)

-- A department's request is answered with an active agent that is not excluded; it has no answer
-- only if each agent that the registry has in the department is inactive or excluded.
pub route_to_department-Answers :
    (agents : Dict AgentInfo) (department : String) (exclude : List String)
    → Answers
        (load_registry (some agents))
        agents
        department
        exclude
        (route_to_department (load_registry (some agents)) department exclude)
route_to_department-Answers agents department exclude =
    let r = load_registry (some agents) in
    answered r agents department exclude (route_to_department r department exclude)
      (department_lem r exclude department) (loaded agents)
