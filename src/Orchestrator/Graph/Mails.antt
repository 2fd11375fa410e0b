-- ===== src/Orchestrator/Graph/Mails.antt =====
-- Every mail that a run sends follows the chain of command.
use nexus_ai_team.Prelude.{
  ℕ, ◌+◌, ltb, leb, ◌≡◌, refl, String, Bool, not, ◌==◌, ◌&&◌, Option, none, some, ◌++◌, All,
  All-append, get_or,
}
use nexus_ai_team.Prelude.Text.{nonempty}
use nexus_ai_team.Effects.{Result, ok, err, pure, ◌>>=◌}
use nexus_ai_team.Orchestrator.State.{State, max_retries}
use nexus_ai_team.Orchestrator.System.{World, System}
use nexus_ai_team.Orchestrator.Approval.{ApprovalRequest, status_value}
use nexus_ai_team.Orchestrator.Mail.{Delivery, sent, send_mail}
use nexus_ai_team.Orchestrator.Mail.Legal.{IsLegal, send_mail-IsLegal}
use nexus_ai_team.Orchestrator.Nodes.Ceo.{
  HumanResponse, ceo_dispatch, ceo_approve, ask_human, ask_ai, await_human, settle_human,
  approved_state, rejected_state, ceo_handle_escalation,
}
use nexus_ai_team.Orchestrator.Nodes.Manager.{
  manager_plan, request_approval, escalate_failure, request_retry, manager_review_after_qa,
}
use nexus_ai_team.Orchestrator.Nodes.Accept.{
  should_reject, reject_contract, accept_contract, worker_accept,
}
use nexus_ai_team.Orchestrator.Nodes.Reassign.{give_up, hand_out_again, manager_reassign}
use nexus_ai_team.Orchestrator.Nodes.Worker.{worker_execute}
use nexus_ai_team.Orchestrator.Nodes.Qa.{qa_review}
use nexus_ai_team.Orchestrator.Nodes.Progress.{
  escalate_check, warn_stuck, report_on_track, check_progress,
}
use nexus_ai_team.Effects.Ensures.{
  Ensures, Ensures-seq, Ensures-bind, Ensures-pure, Ensures-raise, Ensures-if, Ensures-mono,
}
use nexus_ai_team.Orchestrator.Graph
use nexus_ai_team.Orchestrator.Graph.{Node, Target, node, end, next, execute, run}
use nexus_ai_team.Orchestrator.Graph.Induction.{Lands, Holds, steps_induction}

-- All mail of the log is legal.
abbrev pub HasLegalLog : State → Type 0
HasLegalLog t = All IsLegal t.mail_log

module _ (s : State) (legal : HasLegalLog s) where
  -- The last steps of most nodes: a mail, and the state with the mail in its log.
  mail_then :
      (w : World) (phase to subject body kind : String) (f : Delivery → State)
      → ((d : Delivery) → (f d).mail_log ≡ s.mail_log ++ sent d)
      → Ensures HasLegalLog (send_mail w phase to subject body kind >>= λ m. pure (f m))
  mail_then w phase to subject body kind f log =
      Ensures-bind {Q = λ d. All IsLegal (sent d)} _
        (λ d h. Ensures-pure _ (rw (log d) (All-append IsLegal s.mail_log (sent d) legal h))) _
        (send_mail-IsLegal w phase to subject body kind)

  keeps_log : (t : State) → t.mail_log ≡ s.mail_log → Ensures {S = System} HasLegalLog (pure t)
  keeps_log t e = Ensures-pure t (rw e legal)

  module _ (w : World) where
    dispatch_legal : Ensures HasLegalLog (ceo_dispatch w s)
    unfolding ceo_dispatch
    dispatch_legal = Ensures-seq _ _ λ c. Ensures-seq _ _ λ n. mail_then _ _ _ _ _ _ _ (λ d. refl)

    plan_legal : Ensures HasLegalLog (manager_plan w s)
    unfolding manager_plan
    plan_legal = Ensures-seq _ _ λ l. Ensures-seq _ _ λ i. mail_then _ _ _ _ _ _ _ (λ d. refl)

    accept_legal : Ensures HasLegalLog (worker_accept w s)
    unfolding worker_accept reject_contract accept_contract
    accept_legal = Ensures-seq _ _ λ t.
        Ensures-if (should_reject s) _ _ (λ h. mail_then _ _ _ _ _ _ _ (λ d. refl))
          (λ h. mail_then _ _ _ _ _ _ _ (λ d. refl))

    reassign_legal : Ensures HasLegalLog (manager_reassign w s)
    unfolding manager_reassign give_up hand_out_again
    reassign_legal =
        Ensures-if (leb max_retries (s.attempt_count + 1)) _ _
          (λ h. Ensures-seq _ _ λ e. mail_then _ _ _ _ _ _ _ (λ d. refl))
          (λ h. Ensures-seq _ _ λ i. mail_then _ _ _ _ _ _ _ (λ d. refl))

    work_legal : Ensures HasLegalLog (worker_execute w s)
    unfolding worker_execute
    work_legal =
        Ensures-seq _ _
          λ c. Ensures-seq _ _ λ r. Ensures-seq _ _ λ g. mail_then _ _ _ _ _ _ _ (λ d. refl)

    review_legal : Ensures HasLegalLog (qa_review w s)
    unfolding qa_review
    review_legal = Ensures-seq _ _ λ r.
        Ensures-seq _ _
          λ l. Ensures-seq _ _ λ t. Ensures-seq _ _ λ v. mail_then _ _ _ _ _ _ _ (λ d. refl)

    judge_legal : Ensures HasLegalLog (manager_review_after_qa w s)
    unfolding manager_review_after_qa request_approval escalate_failure request_retry
    judge_legal = Ensures-seq _ _ λ r.
        Ensures-if (s.qa_verdict == "PASS") _ _ (λ p. mail_then _ _ _ _ _ _ _ (λ d. refl))
          (λ n.
            Ensures-if (leb s.max_attempts s.attempt_count) _ _
              (λ o. Ensures-seq _ _ λ e. mail_then _ _ _ _ _ _ _ (λ d. refl))
              (λ l. Ensures-seq _ _ λ i. mail_then _ _ _ _ _ _ _ (λ d. refl)))

    check_legal : Ensures HasLegalLog (check_progress w s)
    unfolding check_progress escalate_check warn_stuck report_on_track
    check_legal = Ensures-seq _ _ λ t.
        Ensures-if (ltb s.max_checks (s.check_count + 1) && not (nonempty s.worker_output)) _ _
          (λ o. mail_then _ _ _ _ _ _ _ (λ d. refl))
          (λ u.
            Ensures-if (not (nonempty s.worker_output)) _ _
              (λ q. mail_then _ _ _ _ _ _ _ (λ d. refl)) (λ h. keeps_log _ refl))

    settle_legal :
        (req : ApprovalRequest) (r : HumanResponse) → Ensures HasLegalLog (settle_human w s req r)
    unfolding settle_human approved_state rejected_state
    settle_legal req r =
        Ensures-if (get_or r.action "reject" == "approve") _ _
          (λ y. Ensures-seq _ _ λ t. Ensures-seq _ _ λ q. keeps_log _ refl)
          (λ n. Ensures-seq _ _ λ t. Ensures-seq _ _ λ q. keeps_log _ refl)

    await_legal :
        (resume : Option HumanResponse) (req : ApprovalRequest)
        → Ensures HasLegalLog (await_human w s resume req)
    unfolding await_human
    await_legal none req = Ensures-raise _
    await_legal (some r) req = settle_legal req r

    ask_ai_legal : Ensures HasLegalLog (ask_ai w s)
    unfolding ask_ai approved_state rejected_state
    ask_ai_legal = Ensures-seq _ _ λ req. Ensures-seq _ _ λ r.
        Ensures-if (status_value r.status == "approved") _ _ (λ y. keeps_log _ refl)
          (λ n. keeps_log _ refl)

    decide_legal : (resume : Option HumanResponse) → Ensures HasLegalLog (ceo_approve w s resume)
    unfolding ceo_approve ask_human
    decide_legal resume =
        Ensures-if (s.approver_type == "human") _ _
          (λ h. Ensures-seq _ _ λ req. await_legal resume req) (λ h. ask_ai_legal)

  close_legal : Ensures HasLegalLog (ceo_handle_escalation s)
  unfolding ceo_handle_escalation
  close_legal = Ensures-seq _ _ λ n. keeps_log _ refl

-- Each node keeps the log legal, from any phase.
pub execute-HasLegalLog :
    (w : World) (resume : Option HumanResponse) (n : Node) (s : State)
    → HasLegalLog s
    → Ensures HasLegalLog (execute w resume n s)
unfolding execute
execute-HasLegalLog w resume Graph.ceo_dispatch s h = dispatch_legal s h w
execute-HasLegalLog w resume Graph.manager_plan s h = plan_legal s h w
execute-HasLegalLog w resume Graph.worker_accept s h = accept_legal s h w
execute-HasLegalLog w resume Graph.manager_reassign s h = reassign_legal s h w
execute-HasLegalLog w resume Graph.worker_execute s h = work_legal s h w
execute-HasLegalLog w resume Graph.qa_review s h = review_legal s h w
execute-HasLegalLog w resume Graph.manager_review_after_qa s h = judge_legal s h w
execute-HasLegalLog w resume Graph.progress_check s h = check_legal s h w
execute-HasLegalLog w resume Graph.ceo_approve s h = decide_legal s h w resume
execute-HasLegalLog w resume Graph.ceo_handle_escalation s h = close_legal s h

Lands-HasLegalLog :
    (t : State) (r : Result Target) → HasLegalLog t → Lands (λ n. HasLegalLog) HasLegalLog t r
Lands-HasLegalLog t (err e) h = tt
Lands-HasLegalLog t (ok end) h = h
Lands-HasLegalLog t (ok (node n)) h = h

-- A run from any node whose log is legal ends with a legal log, wherever it finishes, pauses or
-- uses its steps up: each mail in it goes to the manager or comes from the manager.
pub run-HasLegalLog :
    (w : World) (waits : Node → Bool) (limit : ℕ) (resume : Option HumanResponse) (n : Node)
    (s : State) (sys : System)
    → HasLegalLog s
    → Holds (λ m. HasLegalLog) HasLegalLog (run w waits resume limit n s sys)
run-HasLegalLog w waits limit resume n s sys h =
    steps_induction (λ m. HasLegalLog) HasLegalLog w waits
      (λ r m t i.
        Ensures-mono (λ u. Lands-HasLegalLog u (next m u)) _ (execute-HasLegalLog w r m t i))
      limit resume n s sys h
