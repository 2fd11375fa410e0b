-- ===== src/Orchestrator/Nodes/Accept.antt =====
-- nexus/orchestrator/nodes/worker_accept.py
use nexus_ai_team.Prelude.{◌+◌, String, Bool, true, false, some, ◌++◌, if◌then◌else◌}
use nexus_ai_team.Prelude.Text.{◌⁀◌, take_text, upper, contains}
use nexus_ai_team.Effects.{pure, ◌>>=◌}
use nexus_ai_team.Orchestrator.State.{State}
use nexus_ai_team.Orchestrator.System.{World, Act, now}
use nexus_ai_team.Orchestrator.Mail.{send_mail, sent}

abbrev pub reject_marker : String
reject_marker = "REJECT"

unfoldable pub should_reject : State → Bool
should_reject s = contains reject_marker (upper s.contract_id)

reject_reason_for : String → String
reject_reason_for contract_id =
    "Worker 评估后发现任务超出当前能力范围或资源不足。合同 " ⁀ contract_id ⁀ " 的需求与现有技术栈不匹配，建议 Manager 重新分配或调整任务范围。"

module _ (w : World) (s : State) where
  unfoldable pub reject_contract : String → Act State
  unfolding reject_reason_for
  reject_contract deadline = do
    m ←
        send_mail w "worker_rejected" "manager" ("合同拒绝通知: " ⁀ s.contract_id)
          ("Worker 已评估合同 "
            ⁀ s.contract_id
            ⁀ "，决定拒绝接受。\n\n拒绝原因：\n"
            ⁀ reject_reason_for s.contract_id
            ⁀ "\n\n请 Manager 重新分配或调整任务范围。")
          "report"
    pure (record s {
      current_phase = "worker_rejected";
      contract_accepted = some false;
      reject_reason = reject_reason_for s.contract_id;
      acceptance_deadline = deadline;
      mail_log = s.mail_log ++ sent m;
    })

  unfoldable pub accept_contract : String → Act State
  accept_contract deadline = do
    m ←
        send_mail w "worker_accepted" "manager" ("合同接受确认: " ⁀ s.contract_id)
          ("Worker 已确认接受合同 "
            ⁀ s.contract_id
            ⁀ "。\n\n任务摘要："
            ⁀ take_text 120 s.manager_instruction
            ⁀ "\n\n将立即开始执行，按时完成并汇报。")
          "info"
    pure (record s {
      current_phase = "worker_accepted";
      contract_accepted = some true;
      reject_reason = "";
      acceptance_deadline = deadline;
      mail_log = s.mail_log ++ sent m;
    })

  -- The deadline is five minutes on.
  unfoldable pub worker_accept : Act State
  worker_accept = do
    t ← now w
    let deadline = w.iso (t + 300_000_000)
    if should_reject s then reject_contract deadline else accept_contract deadline
