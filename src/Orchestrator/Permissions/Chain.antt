-- ===== src/Orchestrator/Permissions/Chain.antt =====
-- The chain of command: all mail goes to the manager or comes from the manager.
use nexus_ai_team.Prelude.{◌≡◌, String, true, none, ◌⊎◌, inl, inr, ◌↔◌, arith, eq_iff, Bool-cases}
use nexus_ai_team.Orchestrator.Permissions.{is_route, check_mail_permission}

-- The roles that report to the manager or that the manager reports to.
abbrev pub IsNeighbour : String → Type 0
IsNeighbour role = (role ≡ "ceo") ⊎ ((role ≡ "worker") ⊎ (role ≡ "qa"))

abbrev pub MayWrite : String → String → Type 0
MayWrite from to = (from ≡ "manager") × IsNeighbour to ⊎ IsNeighbour from × (to ≡ "manager")

route_MayWrite : (from to : String) → is_route from to ≡ true → MayWrite from to
unfolding is_route
route_MayWrite from to h = ground (
  arith,
  eq_iff "ceo" from,
  eq_iff "manager" from,
  eq_iff "worker" from,
  eq_iff "qa" from,
  eq_iff "ceo" to,
  eq_iff "manager" to,
  eq_iff "worker" to,
  eq_iff "qa" to,
)

MayWrite-route : (from to : String) → MayWrite from to → is_route from to ≡ true
unfolding is_route
MayWrite-route from to (inl (f, inl t)) = rw (f, t)
MayWrite-route from to (inl (f, inr (inl t))) = rw (f, t)
MayWrite-route from to (inl (f, inr (inr t))) = rw (f, t)
MayWrite-route from to (inr (inl f, t)) = rw (f, t)
MayWrite-route from to (inr (inr (inl f), t)) = rw (f, t)
MayWrite-route from to (inr (inr (inr f), t)) = rw (f, t)

none-route : (from to : String) → check_mail_permission from to ≡ none → is_route from to ≡ true
unfolding check_mail_permission
none-route from to h = elim (Bool-cases (is_route from to)) [ inl e ↦ e | inr e ↦ cc (rw e at h) ]

-- For all texts `from` and `to`, the check lets mail pass exactly when one of the two is the
-- manager and the other is the CEO, a worker or QA.
pub check_mail_permission_iff :
    (from to : String) → (check_mail_permission from to ≡ none) ↔ MayWrite from to
unfolding check_mail_permission
check_mail_permission_iff from to =
    ((λ h. route_MayWrite from to (none-route from to h)), λ h. rw (MayWrite-route from to h))
