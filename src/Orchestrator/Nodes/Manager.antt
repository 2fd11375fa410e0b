-- ===== src/Orchestrator/Nodes/Manager.antt =====
-- nexus/orchestrator/nodes/manager.py
use nexus_ai_team.Prelude.{◌+◌, leb, true, ◌==◌, ◌++◌, if◌then◌else◌}
use nexus_ai_team.Prelude.Text.{◌⁀◌, decimal, take_text}
use nexus_ai_team.Effects.{pure, ◌>>=◌, ◌>>◌}
use nexus_ai_team.Orchestrator.State.{State}
use nexus_ai_team.Orchestrator.System.{World, Act}
use nexus_ai_team.Orchestrator.Mail.{send_mail, sent, refused}
use nexus_ai_team.Orchestrator.Tools.Manager.{
  break_down_task, assign_worker, review_report, escalate,
}

module _ (w : World) (s : State) where
  unfoldable pub manager_plan : Act State
  manager_plan = do
    subtasks ← break_down_task w "manager" s.task_description
    instruction ← assign_worker "manager" "worker_001" subtasks
    m ← send_mail w s.current_phase "worker" ("任务分配: " ⁀ s.contract_id) instruction "contract"
    pure (record s {
      current_phase = "worker_executing";
      subtasks = subtasks;
      manager_instruction = instruction;
      mail_log = s.mail_log ++ sent m;
      mail_rejections = s.mail_rejections ++ refused m;
    })

  -- QA passed: on to the CEO.
  unfoldable pub request_approval : Act State
  request_approval = do
    m ←
        send_mail w s.current_phase "ceo" ("审批请求: " ⁀ s.contract_id ⁀ " QA PASS")
          ("合同 "
            ⁀ s.contract_id
            ⁀ " 已通过 QA 审查（第 "
            ⁀ decimal s.attempt_count
            ⁀ " 次）。\nQA 报告:\n"
            ⁀ s.qa_report
            ⁀ "\n请 CEO 审批并最终确认交付。")
          "approval_request"
    pure (record s {
      current_phase = "ceo_approval";
      mail_log = s.mail_log ++ sent m;
      mail_rejections = s.mail_rejections ++ refused m;
    })

  -- No attempts are left.
  unfoldable pub escalate_failure : Act State
  escalate_failure = do
    escalation_msg ←
        escalate "manager"
          ("经过 " ⁀ decimal s.attempt_count ⁀ " 次重试仍未通过 QA: " ⁀ take_text 100 s.qa_report)
          s.contract_id
    m ←
        send_mail w s.current_phase "ceo" ("上报: " ⁀ s.contract_id ⁀ " 超出重试上限")
          (escalation_msg ⁀ "\n最后一次 QA 报告:\n" ⁀ s.qa_report) "escalation"
    pure (record s {
      current_phase = "ceo_escalation";
      escalated = true;
      mail_log = s.mail_log ++ sent m;
      mail_rejections = s.mail_rejections ++ refused m;
    })

  -- Back to the worker, with the report of QA in the instruction.
  unfoldable pub request_retry : Act State
  request_retry = do
    instruction ← assign_worker "manager" "worker_001" s.subtasks
    m ←
        send_mail w s.current_phase "worker"
          ("重试请求: " ⁀ s.contract_id ⁀ " (第 " ⁀ decimal (s.attempt_count + 1) ⁀ " 次)")
          ("QA 未通过，请根据以下反馈修改代码：\n" ⁀ s.qa_report ⁀ "\n\n重新执行指令:\n" ⁀ instruction) "info"
    pure (record s {
      current_phase = "worker_executing";
      manager_instruction =
          "重试指令: QA 审查未通过，请修复以下问题后重新提交。\nQA 报告: " ⁀ s.qa_report ⁀ "\n\n原始任务: " ⁀ s.task_description;
      mail_log = s.mail_log ++ sent m;
      mail_rejections = s.mail_rejections ++ refused m;
    })

  unfoldable pub manager_review_after_qa : Act State
  manager_review_after_qa = do
    review_report "manager" s.worker_output s.qa_report
    if s.qa_verdict == "PASS"
        then request_approval
        else if leb s.max_attempts s.attempt_count
        then escalate_failure
        else request_retry
