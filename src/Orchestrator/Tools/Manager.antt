-- ===== src/Orchestrator/Tools/Manager.antt =====
-- nexus/orchestrator/tools/manager_tools.py
use text.Mathlib.Text.{starts_with}
use nexus_ai_team.Prelude.{ℕ, suc, String, List, [], ◌∷◌, is_empty, if◌then◌else◌}
use nexus_ai_team.Prelude.Text.{
  ◌⁀◌, decimal, strip, splitlines, drop_text, take_text, len_text, join, nonempty,
}
use nexus_ai_team.Effects.{pure, lift, ◌>>=◌, ◌>>◌}
use nexus_ai_team.Orchestrator.Permissions.{check_tool_permission}
use nexus_ai_team.Orchestrator.System.{World, Act}
use nexus_ai_team.Orchestrator.Tools.Llm.{llm_call}

abbrev pub break_down_system : String
break_down_system =
    "You are a technical project manager. "
    ⁀ "Break the given task into 3-5 atomic subtasks that a developer can execute "
    ⁀ "independently. Return each subtask on a new line, prefixed with '- '. "
    ⁀ "Do not include any introduction, conclusion, or extra commentary — "
    ⁀ "output only the bullet list."

-- The lines that begin with a dash, without it.
unfoldable pub bullets : List String → List String
bullets [] = []
bullets (line ∷ lines) =
    let stripped = strip line in
    let rest = bullets lines in
    if starts_with stripped "- "
    then strip (drop_text 2 stripped) ∷ rest
    else if starts_with stripped "-"
    then strip (drop_text 1 stripped) ∷ rest
    else rest

nonblank : List String → List String
nonblank [] = []
nonblank (line ∷ lines) =
    let rest = nonblank lines in if nonempty (strip line) then strip line ∷ rest else rest

-- What `break_down_task` makes of the answer.
unfoldable pub parse_subtasks : String → List String
unfolding bullets nonblank
parse_subtasks raw =
    let found = bullets (splitlines raw) in
    if is_empty found then nonblank (splitlines raw) else found

unfoldable pub break_down_task : World → (role task_description : String) → Act (List String)
break_down_task w role task_description = do
  lift (check_tool_permission role "break_down_task")
  raw ← llm_call w role break_down_system task_description 512
  pure (parse_subtasks raw)

numbered : ℕ → List String → List String
numbered i [] = []
numbered i (t ∷ ts) = ("  " ⁀ decimal i ⁀ ". " ⁀ t) ∷ numbered (suc i) ts

unfoldable pub assign_worker : (role worker_id : String) → List String → Act String
unfolding numbered
assign_worker role worker_id subtasks = do
  lift (check_tool_permission role "assign_worker")
  pure (
      "Worker "
      ⁀ worker_id
      ⁀ "，请按顺序执行以下任务：\n"
      ⁀ join "\n" (numbered 1 subtasks)
      ⁀ "\n完成后提交报告给 Manager。")

unfoldable pub review_report : (role worker_output qa_report : String) → Act String
review_report role worker_output qa_report = do
  lift (check_tool_permission role "review_report")
  pure (
      "Manager 审阅完毕。Worker 输出长度: "
      ⁀ decimal (len_text worker_output)
      ⁀ " 字符，"
      ⁀ "QA 报告: "
      ⁀ take_text 100 qa_report
      ⁀ "...")

unfoldable pub escalate : (role reason contract_id : String) → Act String
escalate role reason contract_id = do
  lift (check_tool_permission role "escalate")
  pure ("[ESCALATION] contract=" ⁀ contract_id ⁀ " reason=" ⁀ reason)
