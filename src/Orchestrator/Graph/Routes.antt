-- ===== src/Orchestrator/Graph/Routes.antt =====
-- Where the labels of the routing functions lead.
use nexus_ai_team.Prelude.{
  ℕ, ltb, ◌≡◌, refl, Bool, true, false, ◌==◌, ◌||◌, Option, none, some, Bool-cases, inl, inr,
  if◌then◌else◌,
}
use nexus_ai_team.Effects.{key_error, Result, ok, err}
use nexus_ai_team.Orchestrator.State.{State}
use nexus_ai_team.Orchestrator.Graph.{
  Node, worker_accept, manager_reassign, worker_execute, qa_review, manager_review_after_qa,
  progress_check, ceo_approve, ceo_handle_escalation, Target, node, end, next,
}

abbrev pub accept_target : Option Bool → Target
accept_target (some true) = node worker_execute
accept_target (some false) = node manager_reassign
accept_target none = node manager_reassign

abbrev pub delivery_target : Option ℕ → Node
delivery_target none = qa_review
delivery_target (some seconds) = progress_check

abbrev pub judgement_target : State → Node
judgement_target s =
    if s.qa_verdict == "PASS"
    then ceo_approve
    else if ltb s.attempt_count s.max_attempts
    then worker_execute
    else ceo_handle_escalation

abbrev pub check_target : State → Result Target
check_target s =
    if s.escalated || s.check_result == "stuck"
    then ok (node ceo_handle_escalation)
    else err (key_error "qa_review")

abbrev pub decision_target : State → Target
decision_target s =
    if s.ceo_approved
    then end
    else if ltb s.attempt_count s.max_attempts
    then node worker_execute
    else end

module _ (s : State) where
  accept_leads :
      (a : Option Bool) → s.contract_accepted ≡ a → next worker_accept s ≡ ok (accept_target a)
  unfolding next
  accept_leads none h = rw h
  accept_leads (some true) h = rw h
  accept_leads (some false) h = rw h

  pub next-worker_accept : next worker_accept s ≡ ok (accept_target s.contract_accepted)
  next-worker_accept = accept_leads s.contract_accepted refl

  pub next-manager_reassign :
      next manager_reassign s
      ≡ ok (node (if s.escalated then ceo_handle_escalation else worker_accept))
  unfolding next
  next-manager_reassign = elim (Bool-cases s.escalated) [ inl h ↦ rw h | inr h ↦ rw h ]

  delivery_leads :
      (c : Option ℕ)
      → s.check_after_seconds ≡ c
      → next worker_execute s ≡ ok (node (delivery_target c))
  unfolding next
  delivery_leads none h = rw h
  delivery_leads (some n) h = rw h

  pub next-worker_execute :
      next worker_execute s ≡ ok (node (delivery_target s.check_after_seconds))
  next-worker_execute = delivery_leads s.check_after_seconds refl

  pub next-manager_review_after_qa : next manager_review_after_qa s ≡ ok (node (judgement_target s))
  unfolding next
  next-manager_review_after_qa = elim (Bool-cases (s.qa_verdict == "PASS")) [
    | inl h ↦ rw h
    | inr h ↦ elim (Bool-cases (ltb s.attempt_count s.max_attempts)) [
      | inl k ↦ rw (h, k)
      | inr k ↦ rw (h, k)
    ]
  ]

  pub next-progress_check : next progress_check s ≡ check_target s
  unfolding next
  next-progress_check = elim (Bool-cases (s.escalated || s.check_result == "stuck")) [
    | inl h ↦ rw h
    | inr h ↦ rw h
  ]

  pub next-ceo_approve : next ceo_approve s ≡ ok (decision_target s)
  unfolding next
  next-ceo_approve = elim (Bool-cases s.ceo_approved) [
    | inl h ↦ rw h
    | inr h ↦ elim (Bool-cases (ltb s.attempt_count s.max_attempts)) [
      | inl k ↦ rw (h, k)
      | inr k ↦ rw (h, k)
    ]
  ]
