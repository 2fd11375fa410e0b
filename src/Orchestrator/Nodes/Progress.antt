-- ===== src/Orchestrator/Nodes/Progress.antt =====
-- nexus/orchestrator/nodes/progress_check.py
use nexus_ai_team.Prelude.{ℕ, ◌+◌, ltb, leb, String, true, not, ◌&&◌, ◌++◌, if◌then◌else◌}
use nexus_ai_team.Prelude.Text.{◌⁀◌, decimal, nonempty}
use nexus_ai_team.Effects.{pure, ◌>>=◌}
use nexus_ai_team.Orchestrator.State.{State}
use nexus_ai_team.Orchestrator.System.{World, Act, now}
use nexus_ai_team.Orchestrator.Mail.{send_mail, sent}

module _ (w : World) (s : State) (new_check_count : ℕ) (now_iso : String) where
  unfoldable pub escalate_check : Act State
  escalate_check = do
    m ←
        send_mail w "check_escalation" "ceo" ("上报: " ⁀ s.contract_id ⁀ " 超过最大回查次数仍无进展")
          ("合同 "
            ⁀ s.contract_id
            ⁀ " 已回查 "
            ⁀ decimal new_check_count
            ⁀ " 次，超过上限 "
            ⁀ decimal s.max_checks
            ⁀ " 次，Worker 仍无任何产出。\n建议 CEO 介入处理或重新分配资源。")
          "escalation"
    pure (record s {
      current_phase = "check_escalation";
      check_result = "stuck";
      check_count = new_check_count;
      last_check_time = now_iso;
      escalated = true;
      mail_log = s.mail_log ++ sent m;
    })

  unfoldable pub warn_stuck : Act State
  warn_stuck = do
    m ←
        send_mail w "check_stuck" "manager" ("进度预警: " ⁀ s.contract_id ⁀ " Worker 无响应")
          ("合同 "
            ⁀ s.contract_id
            ⁀ " 第 "
            ⁀ decimal new_check_count
            ⁀ " 次回查，Worker 仍无任何产出，可能已卡死。\n回查上限："
            ⁀ decimal s.max_checks
            ⁀ " 次。")
          "escalation"
    pure (record s {
      current_phase = "check_stuck";
      check_result = "stuck";
      check_count = new_check_count;
      last_check_time = now_iso;
      escalated = leb s.max_checks new_check_count;
      mail_log = s.mail_log ++ sent m;
    })

  unfoldable pub report_on_track : Act State
  report_on_track = pure (record s {
    current_phase = "check_on_track";
    check_result = "on_track";
    check_count = new_check_count;
    last_check_time = now_iso;
  })

unfoldable pub check_progress : World → State → Act State
check_progress w s = do
  t ← now w
  let new_check_count = s.check_count + 1
  let now_iso = w.iso t
  if ltb s.max_checks new_check_count && not (nonempty s.worker_output)
      then escalate_check w s new_check_count now_iso
      else if not (nonempty s.worker_output)
      then warn_stuck w s new_check_count now_iso
      else report_on_track w s new_check_count now_iso
