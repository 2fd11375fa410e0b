-- ===== src/Orchestrator/Permissions/Exclusive.antt =====
-- Tools that one role alone may call.
use nexus_ai_team.Prelude.{◌≡◌, String, ◌⊎◌, inl, inr, arith, eq_iff}
use nexus_ai_team.Effects.{ok}
use nexus_ai_team.Orchestrator.Permissions.{check_tool_permission}

abbrev pub May : String → String → Type 0
May role tool = check_tool_permission role tool ≡ ok tt

module _ (role : String) where
  -- An unknown role may call nothing.
  pub May-known :
      (tool : String)
      → May role tool
      → (role ≡ "ceo") ⊎ ((role ≡ "manager") ⊎ ((role ≡ "worker") ⊎ (role ≡ "qa")))
  unfolding check_tool_permission
  May-known tool h =
      ground
        (arith, eq_iff "ceo" role, eq_iff "manager" role, eq_iff "worker" role, eq_iff "qa" role)

  -- A tool that three of the four roles may not call belongs to the fourth.
  only_ceo :
      (tool : String)
      → ¬ May "manager" tool
      → ¬ May "worker" tool
      → ¬ May "qa" tool
      → May role tool
      → role ≡ "ceo"
  only_ceo tool m w q h = elim (May-known tool h) [
    | inl e ↦ e
    | inr (inl e) ↦ absurd (m (rw e at h))
    | inr (inr (inl e)) ↦ absurd (w (rw e at h))
    | inr (inr (inr e)) ↦ absurd (q (rw e at h))
  ]

  only_manager :
      (tool : String)
      → ¬ May "ceo" tool
      → ¬ May "worker" tool
      → ¬ May "qa" tool
      → May role tool
      → role ≡ "manager"
  only_manager tool c w q h = elim (May-known tool h) [
    | inl e ↦ absurd (c (rw e at h))
    | inr (inl e) ↦ e
    | inr (inr (inl e)) ↦ absurd (w (rw e at h))
    | inr (inr (inr e)) ↦ absurd (q (rw e at h))
  ]

  only_worker :
      (tool : String)
      → ¬ May "ceo" tool
      → ¬ May "manager" tool
      → ¬ May "qa" tool
      → May role tool
      → role ≡ "worker"
  only_worker tool c m q h = elim (May-known tool h) [
    | inl e ↦ absurd (c (rw e at h))
    | inr (inl e) ↦ absurd (m (rw e at h))
    | inr (inr (inl e)) ↦ e
    | inr (inr (inr e)) ↦ absurd (q (rw e at h))
  ]

  only_qa :
      (tool : String)
      → ¬ May "ceo" tool
      → ¬ May "manager" tool
      → ¬ May "worker" tool
      → May role tool
      → role ≡ "qa"
  only_qa tool c m w h = elim (May-known tool h) [
    | inl e ↦ absurd (c (rw e at h))
    | inr (inl e) ↦ absurd (m (rw e at h))
    | inr (inr (inl e)) ↦ absurd (w (rw e at h))
    | inr (inr (inr e)) ↦ e
  ]

  -- Whatever the role: only the CEO may issue a contract, only the manager may assign a worker,
  -- only the worker may write code and commit it, and only QA may give a verdict.
  pub exclusive_tools :
      (May role "generate_contract" → role ≡ "ceo")
      × (May role "assign_worker" → role ≡ "manager")
      × (May role "write_code" → role ≡ "worker")
      × (May role "git_commit" → role ≡ "worker")
      × (May role "write_verdict" → role ≡ "qa")
  unfolding check_tool_permission
  exclusive_tools = (
    only_ceo "generate_contract" (λ h. cc) (λ h. cc) (λ h. cc),
    only_manager "assign_worker" (λ h. cc) (λ h. cc) (λ h. cc),
    only_worker "write_code" (λ h. cc) (λ h. cc) (λ h. cc),
    only_worker "git_commit" (λ h. cc) (λ h. cc) (λ h. cc),
    only_qa "write_verdict" (λ h. cc) (λ h. cc) (λ h. cc),
  )
