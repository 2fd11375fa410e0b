-- ===== src/Orchestrator/Nodes/Reassign.antt =====
-- nexus/orchestrator/nodes/manager_reassign.py
use nexus_ai_team.Prelude.{ℕ, ◌+◌, leb, true, false, none, ◌++◌, if◌then◌else◌}
use nexus_ai_team.Prelude.Text.{◌⁀◌, decimal, take_text}
use nexus_ai_team.Effects.{pure, ◌>>=◌}
use nexus_ai_team.Orchestrator.State.{State, max_retries}
use nexus_ai_team.Orchestrator.System.{World, Act}
use nexus_ai_team.Orchestrator.Mail.{send_mail, sent}
use nexus_ai_team.Orchestrator.Tools.Manager.{assign_worker, escalate}

module _ (w : World) (s : State) (new_attempt : ℕ) where
  unfoldable pub give_up : Act State
  give_up = do
    escalation_msg ←
        escalate "manager"
          ("Worker 拒绝合同，且已达到最大分配次数 " ⁀ decimal max_retries ⁀ "。\n拒绝原因：" ⁀ s.reject_reason)
          s.contract_id
    m ←
        send_mail w "manager_reassigning" "ceo" ("上报: " ⁀ s.contract_id ⁀ " Worker 拒绝且无法重新分配")
          (escalation_msg
            ⁀ "\n\n已尝试分配 "
            ⁀ decimal new_attempt
            ⁀ " 次，均未获 Worker 接受。\n需要 CEO 介入：重新定义任务范围或引入新资源。")
          "escalation"
    pure (record s {
      current_phase = "ceo_escalation";
      escalated = true;
      attempt_count = new_attempt;
      mail_log = s.mail_log ++ sent m;
    })

  unfoldable pub hand_out_again : Act State
  hand_out_again = do
    new_instruction ← assign_worker "manager" "worker_001" s.subtasks
    let adjusted =
        "[重新分配 - 第 "
        ⁀ decimal new_attempt
        ⁀ " 次]\n上次 Worker 拒绝原因："
        ⁀ take_text 200 s.reject_reason
        ⁀ "\n\n调整后指令：\n"
        ⁀ new_instruction
    m ←
        send_mail w "worker_accepting" "worker"
          ("重新分配合同: " ⁀ s.contract_id ⁀ "（第 " ⁀ decimal new_attempt ⁀ " 次）") adjusted "contract"
    pure (record s {
      current_phase = "worker_accepting";
      manager_instruction = adjusted;
      contract_accepted = none;
      reject_reason = "";
      attempt_count = new_attempt;
      escalated = false;
      mail_log = s.mail_log ++ sent m;
    })

-- The bound is the constant `max_retries`, not the contract's `max_attempts`.
unfoldable pub manager_reassign : World → State → Act State
manager_reassign w s =
    let new_attempt = s.attempt_count + 1 in
    if leb max_retries new_attempt then give_up w s new_attempt else hand_out_again w s new_attempt
