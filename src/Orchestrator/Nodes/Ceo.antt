-- ===== src/Orchestrator/Nodes/Ceo.antt =====
-- nexus/orchestrator/nodes/ceo.py and approval_ai.py. The Telegram notification of a human approver
-- changes nothing that the nodes read, and its failures are caught: it is left out.
use text.Mathlib.Text.{starts_with}
use nexus_ai_team.Prelude.{
  ltb, String, true, false, not, ◌==◌, Option, none, some, List, [], ◌∷◌, ◌++◌, get_or,
  if◌then◌else◌,
}
use nexus_ai_team.Prelude.Text.{
  ◌⁀◌, decimal, take_text, len_text, strip, strip_chars, split_newline, upper, join,
}
use nexus_ai_team.Effects.{value_error, graph_interrupt, pure, raise, ◌>>=◌, ◌>>◌}
use nexus_ai_team.Orchestrator.State.{State}
use nexus_ai_team.Orchestrator.System.{World, Act, now, new_id, on_approvals}
use nexus_ai_team.Orchestrator.Mail.{send_mail, sent, refused}
use nexus_ai_team.Orchestrator.Approval.{
  ApprovalRequest, ApproverType, ai, human, status_value, is_pending, create, fresh_request,
  approve_in, reject_in,
}
use nexus_ai_team.Orchestrator.Tools.Llm.{llm_call}
use nexus_ai_team.Orchestrator.Tools.Ceo.{Contract, generate_contract, write_note}

-- The dict of the contract as a format string shows it.
show_contract : World → Contract → String
show_contract w c =
    "{'contract_id': "
    ⁀ w.repr c.contract_id
    ⁀ ", 'task_description': "
    ⁀ w.repr c.task_description
    ⁀ ", 'priority': "
    ⁀ w.repr c.priority
    ⁀ ", 'department': "
    ⁀ w.repr c.department
    ⁀ ", 'status': "
    ⁀ w.repr c.status
    ⁀ ", 'issued_by': "
    ⁀ w.repr c.issued_by
    ⁀ "}"

unfoldable pub ceo_dispatch : World → State → Act State
unfolding show_contract
ceo_dispatch w s = do
  contract ← generate_contract "ceo" s.task_description s.priority s.department s.contract_id
  write_note "ceo" ("已下发合同 " ⁀ s.contract_id ⁀ " 至 " ⁀ s.department ⁀ " 部门")
  m ←
      send_mail w s.current_phase "manager" ("合同下发: " ⁀ s.contract_id)
        ("优先级: "
          ⁀ s.priority
          ⁀ "\n任务: "
          ⁀ s.task_description
          ⁀ "\n请 Manager 分解任务并分配给 Worker 执行。\n合同详情: "
          ⁀ show_contract w contract)
        "contract"
  pure (record s {
    current_phase = "manager_planning";
    mail_log = s.mail_log ++ sent m;
    mail_rejections = s.mail_rejections ++ refused m;
  })

abbrev pub approval_system_prompt : String
approval_system_prompt =
    "You are the CEO of a software company reviewing a contract completion.\n\n"
    ⁀ "You must decide: APPROVE or REJECT.\n\nRules:\n"
    ⁀ "- First line MUST be exactly \"APPROVE\" or \"REJECT\" (nothing else)\n"
    ⁀ "- If REJECT, second line onwards must explain why (mandatory)\n"
    ⁀ "- QA has already reviewed code quality, tests, and security — trust their verdict\n"
    ⁀ "- Your job: verify the work matches the ORIGINAL REQUIREMENTS, not re-review code quality\n"
    ⁀ "- If QA says PASS and the task description is addressed, you should APPROVE\n"
    ⁀ "- Only REJECT if: requirements are clearly not met, scope is wrong, or strategic concerns exist\n"

-- The decision in an answer: `none` approves, `some notes` rejects.
first_word : List String → String
first_word [] = ""
first_word (line ∷ lines) = upper (strip_chars "*`# " (strip line))

notes_of : List String → String
notes_of [] = "AI reviewer rejected without specific reason"
notes_of (line ∷ []) = "AI reviewer rejected without specific reason"
notes_of (line ∷ l ∷ ls) = strip (join "\n" (l ∷ ls))

unfoldable pub parse_decision : String → Option String
unfolding first_word notes_of
parse_decision response =
    let lines = split_newline (strip response) in
    let first_line = first_word lines in
    if starts_with first_line "APPROVE"
    then none
    else if starts_with first_line "REJECT"
    then some (notes_of lines)
    else some ("AI response unclear, defaulting to reject. Raw response:\n" ⁀ response)

settle_decision : World → ApprovalRequest → Option String → Act ApprovalRequest
settle_decision w req none = do t ← now w; on_approvals (approve_in req.request_id "ai_ceo" t)
settle_decision w req (some notes) = do
  t ← now w
  on_approvals (reject_in req.request_id "ai_ceo" notes t)

-- ai_approve; it returns the request as it stands afterwards.
unfoldable pub ai_approve : World → ApprovalRequest → String → Act ApprovalRequest
unfolding settle_decision
ai_approve w request context =
    if not (is_pending request.status)
    then raise (
        value_error
          ("审批 " ⁀ request.request_id ⁀ " 已经是 " ⁀ status_value request.status ⁀ "，不能重复操作"))
    else do
      response ←
          llm_call w "ceo" approval_system_prompt
            ("Contract: " ⁀ request.contract_id ⁀ "\nTitle: " ⁀ request.title ⁀ "\n\nSummary:\n"
              ⁀ request.summary ⁀ "\n\nAdditional Context:\n" ⁀ context
              ⁀ "\n\nDecision (APPROVE or REJECT):")
            512
      settle_decision w request (parse_decision response)

-- What the human answers to the interrupt: the action, and the notes if there are any.
pub record HumanResponse : Type 0 where
  pub action : Option String
  pub notes : Option String

preview : String → String
preview code = if ltb 2000 (len_text code) then take_text 2000 code ⁀ "\n... (truncated)" else code

unfoldable pub summary_of : State → String
unfolding preview
summary_of s =
    "任务: "
    ⁀ s.task_description
    ⁀ "\nQA 裁决: "
    ⁀ s.qa_verdict
    ⁀ "\nQA 报告:\n"
    ⁀ s.qa_report
    ⁀ "\n重试次数: "
    ⁀ decimal s.attempt_count
    ⁀ "\n\nWorker 代码:\n"
    ⁀ preview (get_or s.worker_raw_code s.worker_output)

module _ (s : State) where
  unfoldable pub approved_state : (request_id by_whom : String) → State
  approved_state request_id by_whom = record s {
    current_phase = "completed";
    ceo_approved = true;
    approval_request_id = request_id;
    approval_status = "approved";
    final_result = "合同 " ⁀ s.contract_id ⁀ by_whom ⁀ "\n\n" ⁀ s.worker_output;
  }

  unfoldable pub rejected_state : (request_id by_whom notes : String) → State
  rejected_state request_id by_whom notes = record s {
    current_phase = "rejected";
    ceo_approved = false;
    approval_request_id = request_id;
    approval_status = "rejected";
    approval_rejection_notes = notes;
    ceo_rejection_feedback = some notes;
    final_result = "合同 " ⁀ s.contract_id ⁀ by_whom ⁀ "\n原因: " ⁀ notes;
  }

module _ (w : World) (s : State) where
  unfoldable pub create_request :
      ApproverType → (title approver_id : String) → List String → Act ApprovalRequest
  create_request kind title approver_id cc_list = do
    hex ← new_id w
    t ← now w
    on_approvals
        (create (fresh_request hex s.contract_id title (summary_of s) kind approver_id cc_list t))

  human_approves : ApprovalRequest → Act State
  human_approves req = do
    t ← now w
    on_approvals (approve_in req.request_id s.approver_id t)
    pure (approved_state s req.request_id " 已由人工审批通过。")

  human_rejects : ApprovalRequest → String → Act State
  human_rejects req notes = do
    t ← now w
    on_approvals (reject_in req.request_id s.approver_id notes t)
    pure (rejected_state s req.request_id " 被拒绝。" notes)

  -- After the interrupt.
  unfoldable pub settle_human : ApprovalRequest → HumanResponse → Act State
  unfolding human_approves human_rejects
  settle_human req response =
      if get_or response.action "reject" == "approve"
      then human_approves req
      else human_rejects req (get_or response.notes "审批人未提供原因")

  -- `interrupt` returns the response that the graph was resumed with, and stops it if there is
  -- none. A resumed node runs again from its first line.
  unfoldable pub await_human : Option HumanResponse → ApprovalRequest → Act State
  await_human none req = raise (graph_interrupt req.request_id)
  await_human (some response) req = settle_human req response

  unfoldable pub ask_human : Option HumanResponse → Act State
  ask_human resume = do
    req ←
        create_request human ("合同审批: " ⁀ take_text 50 s.task_description) s.approver_id
          s.approval_cc_list
    await_human resume req

  conclude_ai : ApprovalRequest → Act State
  conclude_ai req =
      if status_value req.status == "approved"
      then pure (approved_state s req.request_id " 已由 AI CEO 批准。")
      else pure (rejected_state s req.request_id " 被 AI CEO 拒绝。" req.rejection_notes)

  unfoldable pub ask_ai : Act State
  unfolding conclude_ai
  ask_ai = do
    req ← create_request ai ("AI 审批: " ⁀ take_text 50 s.task_description) "ai_ceo" []
    settled ← ai_approve w req (summary_of s)
    conclude_ai settled

  unfoldable pub ceo_approve : Option HumanResponse → Act State
  ceo_approve resume = if s.approver_type == "human" then ask_human resume else ask_ai

unfoldable pub ceo_handle_escalation : State → Act State
ceo_handle_escalation s = do
  write_note "ceo"
      ("合同 " ⁀ s.contract_id ⁀ " 经过 " ⁀ decimal s.attempt_count ⁀ " 次重试仍未通过 QA，已由 CEO 标记为失败并关闭。")
  pure (record s {
    current_phase = "escalated";
    escalated = true;
    final_result =
        "合同 "
        ⁀ s.contract_id
        ⁀ " 执行失败。\n重试次数: "
        ⁀ decimal s.attempt_count
        ⁀ "/"
        ⁀ decimal s.max_attempts
        ⁀ "\n最后一次 QA 报告:\n"
        ⁀ s.qa_report
        ⁀ "\nCEO 决定: 关闭本合同，需要人工介入重新制定方案。";
    ceo_approved = false;
  })
