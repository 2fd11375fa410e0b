-- ===== src/Orchestrator/Nodes/Qa.antt =====
-- nexus/orchestrator/nodes/qa.py
use nexus_ai_team.Prelude.{◌++◌, get_or}
use nexus_ai_team.Prelude.Text.{◌⁀◌, decimal}
use nexus_ai_team.Effects.{pure, ◌>>=◌}
use nexus_ai_team.Orchestrator.State.{State}
use nexus_ai_team.Orchestrator.System.{World, Act}
use nexus_ai_team.Orchestrator.Mail.{send_mail, sent, refused}
use nexus_ai_team.Orchestrator.Tools.Qa.{review_code, run_linter, run_tests, write_verdict}

unfoldable pub qa_review : World → State → Act State
qa_review w s = do
  let attempt = s.attempt_count
  let worker_code = get_or s.worker_raw_code s.worker_output
  review ← review_code w "qa" worker_code attempt
  linter ← run_linter "qa" worker_code
  test ← run_tests "qa" worker_code
  v ← write_verdict w "qa" review linter test
  m ←
      send_mail w s.current_phase "manager" ("QA 审查报告: " ⁀ s.contract_id ⁀ " — " ⁀ v.0)
        ("合同编号: "
          ⁀ s.contract_id
          ⁀ "\n审查次数: "
          ⁀ decimal attempt
          ⁀ "\n裁决: "
          ⁀ v.0
          ⁀ "\n\n详细报告:\n"
          ⁀ v.1)
        "report"
  pure (record s {
    current_phase = "manager_review";
    qa_verdict = v.0;
    qa_report = v.1;
    mail_log = s.mail_log ++ sent m;
    mail_rejections = s.mail_rejections ++ refused m;
  })
