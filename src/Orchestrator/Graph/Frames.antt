-- ===== src/Orchestrator/Graph/Frames.antt =====
-- What each node of the graph sets and what it leaves alone, when it returns.
use nexus_ai_team.Prelude.{
  ℕ, ◌+◌, ltb, leb, ◌≡◌, refl, String, Bool, true, false, not, ◌==◌, ◌&&◌, get_or, Option, none,
  some, arith, if◌then◌else◌,
}
use nexus_ai_team.Prelude.Text.{nonempty, nonempty-append}
use nexus_ai_team.Orchestrator.State.{State, max_retries}
use nexus_ai_team.Orchestrator.System.{World}
use nexus_ai_team.Orchestrator.Approval.{status_value, ApprovalRequest}
use nexus_ai_team.Orchestrator.Nodes.Ceo.{
  HumanResponse, ceo_dispatch, ceo_approve, ask_human, ask_ai, await_human, settle_human,
  approved_state, rejected_state, ceo_handle_escalation,
}
use nexus_ai_team.Orchestrator.Nodes.Manager.{
  manager_plan, request_approval, escalate_failure, request_retry, manager_review_after_qa,
}
use nexus_ai_team.Orchestrator.Nodes.Accept.{
  should_reject, reject_contract, accept_contract, worker_accept,
}
use nexus_ai_team.Orchestrator.Nodes.Reassign.{give_up, hand_out_again, manager_reassign}
use nexus_ai_team.Orchestrator.Nodes.Worker.{worker_execute}
use nexus_ai_team.Orchestrator.Nodes.Qa.{qa_review}
use nexus_ai_team.Orchestrator.Nodes.Progress.{
  escalate_check, warn_stuck, report_on_track, check_progress,
}
use nexus_ai_team.Effects.Ensures.{
  Ensures, Ensures-seq, Ensures-pure, Ensures-raise, Ensures-if, Ensures-mono,
}

-- `t` has these values, and in the other fields that routing reads it is as `s`.
pub record Frame (s t : State) (phase verdict : String) (attempts : ℕ) (approved escalated : Bool)
    : Type 0 where
  pub contract_id : t.contract_id ≡ s.contract_id
  pub max_attempts : t.max_attempts ≡ s.max_attempts
  pub check_after_seconds : t.check_after_seconds ≡ s.check_after_seconds
  pub approver_type : t.approver_type ≡ s.approver_type
  pub current_phase : t.current_phase ≡ phase
  pub qa_verdict : t.qa_verdict ≡ verdict
  pub attempt_count : t.attempt_count ≡ attempts
  pub ceo_approved : t.ceo_approved ≡ approved
  pub escalated_is : t.escalated ≡ escalated

-- Only the phase changes.
abbrev pub Moves : State → String → State → Type 0
Moves s phase t = Frame s t phase s.qa_verdict s.attempt_count s.ceo_approved s.escalated

module _ (s : State) where
  abbrev pub Answers : State → Type 0
  Answers t =
      Moves s (if should_reject s then "worker_rejected" else "worker_accepted") t
      × (t.contract_accepted ≡ some (not (should_reject s)))

  abbrev pub Reassigns : State → Type 0
  Reassigns t =
      let over = leb max_retries (s.attempt_count + 1) in
      Frame s t (if over then "ceo_escalation" else "worker_accepting") s.qa_verdict
        (s.attempt_count + 1) s.ceo_approved over

  abbrev pub Works : State → Type 0
  Works t =
      Frame s t "qa_reviewing" s.qa_verdict (s.attempt_count + 1) s.ceo_approved s.escalated
      × (nonempty t.worker_output ≡ true)

  abbrev pub Reviews : State → Type 0
  Reviews t = Frame s t "manager_review" t.qa_verdict s.attempt_count s.ceo_approved s.escalated

  -- The manager sends the work on, gives it up or sends it back.
  abbrev pub Judges : State → Type 0
  Judges t =
      if s.qa_verdict == "PASS"
      then Moves s "ceo_approval" t
      else if leb s.max_attempts s.attempt_count
      then Frame s t "ceo_escalation" s.qa_verdict s.attempt_count s.ceo_approved true
      else Moves s "worker_executing" t

  -- A worker that has delivered is on track.
  abbrev pub Checks : State → Type 0
  Checks t =
      Frame s t t.current_phase s.qa_verdict s.attempt_count s.ceo_approved t.escalated
      × (nonempty s.worker_output ≡ true
          → (t.check_result ≡ "on_track") × (t.escalated ≡ s.escalated))

  abbrev pub Decides : State → Type 0
  Decides t =
      Frame s t (if t.ceo_approved then "completed" else "rejected") s.qa_verdict s.attempt_count
        t.ceo_approved s.escalated

  abbrev pub Closes : State → Type 0
  Closes t = Frame s t "escalated" s.qa_verdict s.attempt_count false true

  pub ceo_handle_escalation-Closes : Ensures (Closes) (ceo_handle_escalation s)
  unfolding ceo_handle_escalation
  ceo_handle_escalation-Closes = Ensures-seq _ _ λ n. Ensures-pure _ (ground arith)

module _ (w : World) (s : State) where
  pub ceo_dispatch-Moves : Ensures (Moves s "manager_planning") (ceo_dispatch w s)
  unfolding ceo_dispatch
  ceo_dispatch-Moves =
      Ensures-seq _ _ λ c. Ensures-seq _ _ λ n. Ensures-seq _ _ λ m. Ensures-pure _ (ground arith)

  pub manager_plan-Moves : Ensures (Moves s "worker_executing") (manager_plan w s)
  unfolding manager_plan
  manager_plan-Moves =
      Ensures-seq _ _ λ l. Ensures-seq _ _ λ i. Ensures-seq _ _ λ m. Ensures-pure _ (ground arith)

  pub worker_accept-Answers : Ensures (Answers s) (worker_accept w s)
  unfolding worker_accept reject_contract accept_contract
  worker_accept-Answers = Ensures-seq _ _ λ d.
      Ensures-if (should_reject s) _ _ (λ h. Ensures-seq _ _ λ m. Ensures-pure _ (ground arith))
        (λ h. Ensures-seq _ _ λ m. Ensures-pure _ (ground arith))

  pub manager_reassign-Reassigns : Ensures (Reassigns s) (manager_reassign w s)
  unfolding manager_reassign give_up hand_out_again
  manager_reassign-Reassigns =
      Ensures-if (leb max_retries (s.attempt_count + 1)) _ _
        (λ h. Ensures-seq _ _ λ e. Ensures-seq _ _ λ m. Ensures-pure _ (ground arith))
        (λ h. Ensures-seq _ _ λ i. Ensures-seq _ _ λ m. Ensures-pure _ (ground arith))

  pub worker_execute-Works : Ensures (Works s) (worker_execute w s)
  unfolding worker_execute
  worker_execute-Works = Ensures-seq _ _ λ c. Ensures-seq _ _ λ r.
      Ensures-seq _ _
        λ g. Ensures-seq _ _ λ m. Ensures-pure _ (ground arith, nonempty-append _ _ refl)

  pub qa_review-Reviews : Ensures (Reviews s) (qa_review w s)
  unfolding qa_review
  qa_review-Reviews = Ensures-seq _ _ λ r. Ensures-seq _ _ λ l.
      Ensures-seq _ _ λ t. Ensures-seq _ _ λ v. Ensures-seq _ _ λ m. Ensures-pure _ (ground arith)

  request_approval-Moves : Ensures (Moves s "ceo_approval") (request_approval w s)
  unfolding request_approval
  request_approval-Moves = Ensures-seq _ _ λ m. Ensures-pure _ (ground arith)

  escalate_failure-Frame :
      Ensures
        (λ t. Frame s t "ceo_escalation" s.qa_verdict s.attempt_count s.ceo_approved true)
        (escalate_failure w s)
  unfolding escalate_failure
  escalate_failure-Frame = Ensures-seq _ _ λ e. Ensures-seq _ _ λ m. Ensures-pure _ (ground arith)

  request_retry-Moves : Ensures (Moves s "worker_executing") (request_retry w s)
  unfolding request_retry
  request_retry-Moves = Ensures-seq _ _ λ i. Ensures-seq _ _ λ m. Ensures-pure _ (ground arith)

  pub manager_review_after_qa-Judges : Ensures (Judges s) (manager_review_after_qa w s)
  unfolding manager_review_after_qa
  manager_review_after_qa-Judges = Ensures-seq _ _ λ r.
      Ensures-if (s.qa_verdict == "PASS") _ _
        (λ passed. Ensures-mono (λ t h. rw passed h) _ request_approval-Moves)
        (λ failed.
          Ensures-if (leb s.max_attempts s.attempt_count) _ _
            (λ over. Ensures-mono (λ t h. rw (failed, over) h) _ escalate_failure-Frame)
            (λ left. Ensures-mono (λ t h. rw (failed, left) h) _ request_retry-Moves))

  pub check_progress-Checks : Ensures (Checks s) (check_progress w s)
  unfolding check_progress escalate_check warn_stuck report_on_track
  check_progress-Checks = Ensures-seq _ _ λ t.
      Ensures-if (ltb s.max_checks (s.check_count + 1) && not (nonempty s.worker_output)) _ _
        (λ over. Ensures-seq _ _ λ m. Ensures-pure _ (ground arith))
        (λ under.
          Ensures-if (not (nonempty s.worker_output)) _ _
            (λ silent. Ensures-seq _ _ λ m. Ensures-pure _ (ground arith))
            (λ heard. Ensures-pure _ (ground arith)))

  approved_state-Decides : (id by_whom : String) → Decides s (approved_state s id by_whom)
  unfolding approved_state
  approved_state-Decides id by_whom = ground arith

  rejected_state-Decides :
      (id by_whom notes : String) → Decides s (rejected_state s id by_whom notes)
  unfolding rejected_state
  rejected_state-Decides id by_whom notes = ground arith

  ask_ai-Decides : Ensures (Decides s) (ask_ai w s)
  unfolding ask_ai
  ask_ai-Decides = Ensures-seq _ _ λ req. Ensures-seq _ _ λ r.
      Ensures-if (status_value r.status == "approved") _ _
        (λ yea. Ensures-pure _ (approved_state-Decides _ _))
        (λ nay. Ensures-pure _ (rejected_state-Decides _ _ _))

  settle_human-Decides :
      (req : ApprovalRequest) (r : HumanResponse) → Ensures (Decides s) (settle_human w s req r)
  unfolding settle_human
  settle_human-Decides req r =
      Ensures-if (get_or r.action "reject" == "approve") _ _
        (λ yea.
          Ensures-seq _ _ λ t. Ensures-seq _ _ λ q. Ensures-pure _ (approved_state-Decides _ _))
        (λ nay.
          Ensures-seq _ _ λ t. Ensures-seq _ _ λ q. Ensures-pure _ (rejected_state-Decides _ _ _))

  await_human-Decides :
      (resume : Option HumanResponse) (req : ApprovalRequest)
      → Ensures (Decides s) (await_human w s resume req)
  unfolding await_human
  await_human-Decides none req = Ensures-raise _
  await_human-Decides (some r) req = settle_human-Decides req r

  ask_human-Decides : (resume : Option HumanResponse) → Ensures (Decides s) (ask_human w s resume)
  unfolding ask_human
  ask_human-Decides resume = Ensures-seq _ _ λ req. await_human-Decides resume req

  pub ceo_approve-Decides :
      (resume : Option HumanResponse) → Ensures (Decides s) (ceo_approve w s resume)
  unfolding ceo_approve
  ceo_approve-Decides resume =
      Ensures-if (s.approver_type == "human") _ _ (λ h. ask_human-Decides resume)
        (λ h. ask_ai-Decides)
