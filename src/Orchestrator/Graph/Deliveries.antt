-- ===== src/Orchestrator/Graph/Deliveries.antt =====
-- The mail that each node sends in the phase that it is entered in.
use mathlib.Core.List.{append-nil}
use nexus_ai_team.Prelude.{
  ℕ, ◌+◌, leb, ◌≡◌, refl, ap, ◌∙◌, String, not, ◌==◌, inl, inr, Option, none, some, [], ◌++◌,
  get_or,
}
use nexus_ai_team.Prelude.Text.{nonempty}
use nexus_ai_team.Effects.{ok}
use nexus_ai_team.Orchestrator.State.{State, max_retries}
use nexus_ai_team.Orchestrator.System.{World}
use nexus_ai_team.Orchestrator.Permissions.{check_mail_permission}
use nexus_ai_team.Orchestrator.Approval.{ApprovalRequest, status_value}
use nexus_ai_team.Orchestrator.Mail.{sent, resolve_from_role}
use nexus_ai_team.Orchestrator.Nodes.Ceo.{
  HumanResponse, ceo_dispatch, ceo_approve, ask_human, ask_ai, await_human, settle_human,
  approved_state, rejected_state, ceo_handle_escalation,
}
use nexus_ai_team.Orchestrator.Nodes.Manager.{
  manager_plan, request_approval, escalate_failure, request_retry, manager_review_after_qa,
}
use nexus_ai_team.Orchestrator.Nodes.Accept.{
  should_reject, reject_contract, accept_contract, worker_accept,
}
use nexus_ai_team.Orchestrator.Nodes.Reassign.{give_up, hand_out_again, manager_reassign}
use nexus_ai_team.Orchestrator.Nodes.Worker.{worker_execute}
use nexus_ai_team.Orchestrator.Nodes.Qa.{qa_review}
use nexus_ai_team.Orchestrator.Nodes.Progress.{
  escalate_check, warn_stuck, report_on_track, check_progress,
}
use nexus_ai_team.Orchestrator.Mail.Delivered.{may_pass, send_mail_forbidden}
use nexus_ai_team.Effects.Ensures.{
  Ensures, Ensures-seq, Ensures-bind, Ensures-pure, Ensures-raise, Ensures-if, Ensures-mono,
  Ensures-both,
}
use nexus_ai_team.Orchestrator.Graph
use nexus_ai_team.Orchestrator.Graph.{Node, Target, node, end, next, execute}
use nexus_ai_team.Orchestrator.Graph.Induction.{step_rule, Lands}
use nexus_ai_team.Orchestrator.Graph.Phases.{InPhase, phase_cases, worker_execute_rejected}
use nexus_ai_team.Orchestrator.Graph.Posts.{
  IsPost, IsSilent, judge_to, is_overdue, Posts, mail-IsPost, logged, addressed, silent,
}

module _ (s : State) where
  module _ (w : World) where
    dispatch-IsPost :
        s.current_phase ≡ "ceo_dispatch" → Ensures (IsPost "ceo" "manager" s) (ceo_dispatch w s)
    unfolding ceo_dispatch resolve_from_role check_mail_permission
    dispatch-IsPost p = Ensures-seq _ _ λ c.
        Ensures-seq _ _ λ n. logged s w "ceo" _ _ _ _ _ (rw p refl) refl (λ d. refl) (λ d. refl)

    plan-IsPost :
        s.current_phase ≡ "manager_planning"
        → Ensures (IsPost "manager" "worker" s) (manager_plan w s)
    unfolding manager_plan resolve_from_role check_mail_permission
    plan-IsPost p = Ensures-seq _ _ λ l.
        Ensures-seq _ _ λ i. logged s w "manager" _ _ _ _ _ (rw p refl) refl (λ d. refl) (λ d. refl)

    accept-IsPost : Ensures (IsPost "worker" "manager" s) (worker_accept w s)
    unfolding worker_accept reject_contract accept_contract resolve_from_role check_mail_permission
    accept-IsPost = Ensures-seq _ _ λ t.
        Ensures-if (should_reject s) _ _
          (λ h.
            mail-IsPost s w "worker_rejected" "worker" _ _ _ _ _ refl refl (λ d. refl)
              (λ d e. refl))
          (λ h.
            mail-IsPost s w "worker_accepted" "worker" _ _ _ _ _ refl refl (λ d. refl)
              (λ d e. refl))

    reassign-Posts : Ensures (Posts Graph.manager_reassign s) (manager_reassign w s)
    unfolding manager_reassign give_up hand_out_again resolve_from_role check_mail_permission
    reassign-Posts =
        Ensures-if (leb max_retries (s.attempt_count + 1)) _ _
          (λ h. Ensures-seq _ _ λ e.
            addressed s w "manager_reassigning" "ceo" _ _ _ _ refl refl (λ d. refl) (λ d e. refl)
              (λ d. refl))
          (λ h. Ensures-seq _ _ λ i.
            addressed s w "worker_accepting" "worker" _ _ _ _ refl refl (λ d. refl) (λ d e. refl)
              (λ d. refl))

    work-IsPost :
        (resolve_from_role s.current_phase ≡ ok "worker")
        → Ensures (IsPost "worker" "manager" s) (worker_execute w s)
    unfolding worker_execute check_mail_permission
    work-IsPost p = Ensures-seq _ _ λ c.
        Ensures-seq _ _
          λ r. Ensures-seq _ _ λ g. logged s w "worker" _ _ _ _ _ p refl (λ d. refl) (λ d. refl)

    review-IsPost :
        s.current_phase ≡ "qa_reviewing" → Ensures (IsPost "qa" "manager" s) (qa_review w s)
    unfolding qa_review resolve_from_role check_mail_permission
    review-IsPost p = Ensures-seq _ _ λ r. Ensures-seq _ _ λ l.
        Ensures-seq _ _ λ t.
          Ensures-seq _ _ λ v. logged s w "qa" _ _ _ _ _ (rw p refl) refl (λ d. refl) (λ d. refl)

    judge-IsPost :
        s.current_phase ≡ "manager_review"
        → Ensures (IsPost "manager" (judge_to s) s) (manager_review_after_qa w s)
    unfolding manager_review_after_qa request_approval escalate_failure request_retry
        resolve_from_role check_mail_permission
    judge-IsPost p = Ensures-seq _ _ λ r.
        Ensures-if (s.qa_verdict == "PASS") _ _
          (λ h. rw h (logged s w "manager" _ _ _ _ _ (rw p refl) refl (λ d. refl) (λ d. refl)))
          (λ n.
            Ensures-if (leb s.max_attempts s.attempt_count) _ _
              (λ o.
                rw (n, o)
                  (Ensures-seq _ _
                    λ e. logged s w "manager" _ _ _ _ _ (rw p refl) refl (λ d. refl) (λ d. refl)))
              (λ l.
                rw (n, l)
                  (Ensures-seq _ _
                    λ i. logged s w "manager" _ _ _ _ _ (rw p refl) refl (λ d. refl) (λ d. refl))))

    escalate-Posts :
        (count : ℕ) (now_iso : String)
        → Ensures (IsPost "manager" "ceo" s) (escalate_check w s count now_iso)
    unfolding escalate_check resolve_from_role check_mail_permission
    escalate-Posts count now_iso =
        mail-IsPost s w "check_escalation" "manager" _ _ _ _ _ refl refl (λ d. refl) (λ d e. refl)

    warn-IsSilent :
        (count : ℕ) (now_iso : String) → Ensures (IsSilent s) (warn_stuck w s count now_iso)
    unfolding warn_stuck may_pass resolve_from_role check_mail_permission
    warn-IsSilent count now_iso =
        Ensures-bind {Q = λ d. sent d ≡ []} _
          (λ d h. Ensures-pure _ (record {
            log = ap (λ x. s.mail_log ++ x) h ∙ append-nil s.mail_log;
            none_refused = refl;
          }))
          _ (send_mail_forbidden w "check_stuck" "manager" "manager" _ _ _ refl refl)

    check-Posts : Ensures (Posts Graph.progress_check s) (check_progress w s)
    unfolding check_progress report_on_track
    check-Posts = Ensures-seq _ _ λ t.
        Ensures-if (is_overdue s) _ _ (λ o. Ensures-mono (λ t h. inl (o, h)) _ (escalate-Posts _ _))
          (λ u.
            Ensures-mono (λ t h. inr (u, h)) _
              (Ensures-if (not (nonempty s.worker_output)) _ _ (λ q. warn-IsSilent _ _)
                (λ h. silent s _ (record { log = refl; none_refused = refl }))))

    settle-IsSilent :
        (req : ApprovalRequest) (r : HumanResponse) → Ensures (IsSilent s) (settle_human w s req r)
    unfolding settle_human approved_state rejected_state
    settle-IsSilent req r =
        Ensures-if (get_or r.action "reject" == "approve") _ _
          (λ y.
            Ensures-seq _ _
              λ t. Ensures-seq _ _ λ q. silent s _ (record { log = refl; none_refused = refl }))
          (λ n.
            Ensures-seq _ _
              λ t. Ensures-seq _ _ λ q. silent s _ (record { log = refl; none_refused = refl }))

    await-IsSilent :
        (resume : Option HumanResponse) (req : ApprovalRequest)
        → Ensures (IsSilent s) (await_human w s resume req)
    unfolding await_human
    await-IsSilent none req = Ensures-raise _
    await-IsSilent (some r) req = settle-IsSilent req r

    ask_ai-IsSilent : Ensures (IsSilent s) (ask_ai w s)
    unfolding ask_ai approved_state rejected_state
    ask_ai-IsSilent = Ensures-seq _ _ λ req. Ensures-seq _ _ λ r.
        Ensures-if (status_value r.status == "approved") _ _
          (λ y. silent s _ (record { log = refl; none_refused = refl }))
          (λ n. silent s _ (record { log = refl; none_refused = refl }))

    decide-IsSilent :
        (resume : Option HumanResponse) → Ensures (IsSilent s) (ceo_approve w s resume)
    unfolding ceo_approve ask_human
    decide-IsSilent resume =
        Ensures-if (s.approver_type == "human") _ _
          (λ h. Ensures-seq _ _ λ req. await-IsSilent resume req) (λ h. ask_ai-IsSilent)

  close-IsSilent : Ensures (IsSilent s) (ceo_handle_escalation s)
  unfolding ceo_handle_escalation
  close-IsSilent = Ensures-seq _ _ λ n. silent s _ (record { log = refl; none_refused = refl })

node-Posts :
    (w : World) (resume : Option HumanResponse) (n : Node) (s : State)
    → InPhase n s
    → Ensures (Posts n s) (execute w resume n s)
unfolding execute resolve_from_role
node-Posts w resume Graph.ceo_dispatch s p = dispatch-IsPost s w p
node-Posts w resume Graph.manager_plan s p = plan-IsPost s w p
node-Posts w resume Graph.worker_accept s p = accept-IsPost s w
node-Posts w resume Graph.manager_reassign s p = reassign-Posts s w
node-Posts w resume Graph.worker_execute s (inl p) = work-IsPost s w (rw p refl)
node-Posts w resume Graph.worker_execute s (inr (inl p)) = work-IsPost s w (rw p refl)
node-Posts w resume Graph.worker_execute s (inr (inr p)) =
    Ensures-mono (λ t f. absurd f) _ (worker_execute_rejected s w p)
node-Posts w resume Graph.qa_review s p = review-IsPost s w p
node-Posts w resume Graph.manager_review_after_qa s p = judge-IsPost s w p
node-Posts w resume Graph.progress_check s p = check-Posts s w
node-Posts w resume Graph.ceo_approve s p = decide-IsSilent s w resume
node-Posts w resume Graph.ceo_handle_escalation s p = close-IsSilent s

-- When a node is entered in its phase and returns, exactly one mail is delivered and none refused by
-- the node that issues the contract, from the CEO to the manager; that plans it, from the manager to
-- the worker; that answers it or works, from the worker to the manager; that reviews the work, from
-- QA to the manager; and that hands the contract out again, judges the review or finds the checks
-- used up, from the manager to the worker or the CEO. Any other check, whose warning never arrives,
-- the approval and the end of an escalation leave both logs as they are. The next node is entered in
-- its phase too, as `ceo_dispatch` is in the phase of its name.
pub execute-Posts :
    (w : World) (resume : Option HumanResponse) (n : Node) (s : State)
    → InPhase n s
    → Ensures (λ t. Posts n s t × Lands InPhase (λ u. Unit) t (next n t)) (execute w resume n s)
execute-Posts w resume n s p =
    Ensures-both _ _ _ (node-Posts w resume n s p)
      (step_rule InPhase (λ t. Unit) phase_cases w resume n s p)
