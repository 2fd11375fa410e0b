-- ===== src/Orchestrator/Nodes/Worker.antt =====
-- nexus/orchestrator/nodes/worker.py
use nexus_ai_team.Prelude.{
  ℕ, ◌+◌, ltb, String, ◌&&◌, ◌||◌, some, List, [], ◌∷◌, ◌++◌, get_or, if◌then◌else◌,
}
use nexus_ai_team.Prelude.Text.{◌⁀◌, decimal, take_text, nonempty, join}
use nexus_ai_team.Effects.{pure, ◌>>=◌}
use nexus_ai_team.Orchestrator.State.{State}
use nexus_ai_team.Orchestrator.System.{World, Act}
use nexus_ai_team.Orchestrator.Mail.{send_mail, sent, refused}
use nexus_ai_team.Orchestrator.Tools.Worker.{write_code, run_tests, git_commit}

ceo_part : String → List String
ceo_part feedback =
    if nonempty feedback
    then ("CEO 拒绝了你上次的产出，反馈如下：\n\n--- CEO 反馈 ---\n" ⁀ feedback ⁀ "\n--- CEO 反馈结束 ---\n") ∷ []
    else []

qa_part : String → List String
qa_part feedback =
    if nonempty feedback
    then ("QA 的反馈如下：\n\n--- QA 反馈 ---\n" ⁀ feedback ⁀ "\n--- QA 反馈结束 ---\n") ∷ []
    else []

-- On a retry the feedback goes in front of the instruction.
unfoldable pub instruction_for : State → ℕ → String
unfolding ceo_part qa_part
instruction_for s attempt =
    let ceo_feedback = get_or s.ceo_rejection_feedback "" in
    let qa_feedback = s.qa_report in
    if ltb 1 attempt && (nonempty qa_feedback || nonempty ceo_feedback)
    then join "\n\n" (
        ceo_part ceo_feedback
        ++ (qa_part qa_feedback
            ++ (("原始任务: " ⁀ s.manager_instruction ⁀ "\n\n请根据以上反馈针对性修复，不要重新从头写。") ∷ [])))
    else s.manager_instruction

unfoldable pub worker_execute : World → State → Act State
worker_execute w s = do
  let attempt = s.attempt_count + 1
  code ← write_code w "worker" (instruction_for s attempt) attempt
  test ← run_tests "worker" code
  commit_ref ←
      git_commit w "worker" code
        ("feat: 合同 "
          ⁀ s.contract_id
          ⁀ " 第 "
          ⁀ decimal attempt
          ⁀ " 次实现\n任务: "
          ⁀ take_text 60 s.task_description)
        ("feature/" ⁀ s.contract_id ⁀ "-attempt-" ⁀ decimal attempt)
  let worker_output =
      "=== Worker 执行报告（第 "
      ⁀ decimal attempt
      ⁀ " 次）===\nCommit: "
      ⁀ commit_ref
      ⁀ "\n本地测试: "
      ⁀ decimal test.passed
      ⁀ " 通过, "
      ⁀ decimal test.failed
      ⁀ " 失败, 覆盖率 "
      ⁀ test.coverage
      ⁀ "\n代码预览:\n"
      ⁀ take_text 400 code
  m ←
      send_mail w s.current_phase "manager"
        ("任务完成报告: " ⁀ s.contract_id ⁀ " 第 " ⁀ decimal attempt ⁀ " 次") worker_output "report"
  pure (record s {
    current_phase = "qa_reviewing";
    worker_output = worker_output;
    worker_raw_code = some code;
    attempt_count = attempt;
    mail_log = s.mail_log ++ sent m;
    mail_rejections = s.mail_rejections ++ refused m;
  })
