-- ===== src/Orchestrator/Tools/Worker.antt =====
-- nexus/orchestrator/tools/worker_tools.py
use nexus_ai_team.Prelude.{ℕ, ◌%◌, String, List, [], ◌∷◌, if◌then◌else◌}
use nexus_ai_team.Prelude.Text.{◌⁀◌, decimal, hex5, lower}
use nexus_ai_team.Effects.{permission_error, pure, raise, lift, ◌>>◌}
use nexus_ai_team.Orchestrator.Permissions.{check_tool_permission, is_in}
use nexus_ai_team.Orchestrator.System.{World, Act}
use nexus_ai_team.Orchestrator.Tools.Llm.{llm_call}

abbrev pub write_code_system : String
write_code_system =
    "You are a senior Python developer. Write clean, production-ready code.\n"
    ⁀ "If the instruction mentions QA feedback or previous issues, focus on "
    ⁀ "FIXING those specific issues.\n"
    ⁀ "Do not regenerate from scratch — build on the previous implementation "
    ⁀ "and address each QA concern.\n"
    ⁀ "Always include proper error handling, type hints, and docstrings."

unfoldable pub write_code : World → (role instruction : String) → ℕ → Act String
write_code w role instruction attempt = do
  lift (check_tool_permission role "write_code")
  llm_call w role write_code_system
      ("Attempt #" ⁀ decimal attempt ⁀ ".\n\nTask instruction:\n" ⁀ instruction) 4096

pub record TestResult : Type 0 where
  pub passed : ℕ
  pub failed : ℕ
  pub coverage : String
  pub duration : String
  pub status : String

unfoldable pub run_tests : (role code : String) → Act TestResult
run_tests role code = do
  lift (check_tool_permission role "run_tests")
  pure (record { passed = 5; failed = 0; coverage = "87%"; duration = "0.42s"; status = "GREEN" })

abbrev pub forbidden_branches : List String
forbidden_branches = "main" ∷ "master" ∷ "production" ∷ "prod" ∷ []

unfoldable pub git_commit : World → (role code message branch : String) → Act String
unfolding is_in lower
git_commit w role code message branch = do
  lift (check_tool_permission role "git_commit")
  if is_in (lower branch) forbidden_branches
      then raise (permission_error role "git_commit")
      else pure ("[" ⁀ branch ⁀ "] abc" ⁀ hex5 (w.hash (code ⁀ message) % 100000) ⁀ " — " ⁀ message)

unfoldable pub read_file : (role file_path : String) → Act String
read_file role file_path = do
  lift (check_tool_permission role "read_file")
  pure ("[FILE CONTENT] " ⁀ file_path ⁀ "\n# 模拟文件内容\ndata = {'key': 'value'}\n")
