-- ===== src/Orchestrator/Tools/Qa.antt =====
-- nexus/orchestrator/tools/qa_tools.py
use text.Mathlib.Text.{starts_with}
use nexus_ai_team.Prelude.{
  ℕ, ltb, String, ◌||◌, ◌&&◌, List, [], ◌∷◌, is_empty, length, map, if◌then◌else◌,
}
use nexus_ai_team.Prelude.Text.{
  ◌⁀◌, decimal, strip, strip_chars, splitlines, split_newline, drop_text, len_text, join, nonempty,
  upper, lower, contains,
}
use nexus_ai_team.Effects.{pure, lift, ◌>>=◌, ◌>>◌}
use nexus_ai_team.Orchestrator.Permissions.{check_tool_permission}
use nexus_ai_team.Orchestrator.System.{World, Act}
use nexus_ai_team.Orchestrator.Tools.Llm.{llm_call}
use nexus_ai_team.Orchestrator.Tools.Worker.{TestResult}

abbrev pub review_code_system : String
review_code_system =
    "You are a senior code reviewer. "
    ⁀ "Review the following code for bugs, security issues, and code quality. "
    ⁀ "Be specific and concise. List each issue on its own line prefixed with '- '. "
    ⁀ "If the code is acceptable, respond with 'No significant issues found.' "
    ⁀ "Do not include praise or general commentary — only actionable findings."

abbrev pub write_verdict_system : String
write_verdict_system =
    "You are a QA lead making a final pass/fail decision. "
    ⁀ "Based on the code review, linter results, and test results provided, "
    ⁀ "decide: PASS or FAIL. "
    ⁀ "Your first line MUST be exactly 'PASS' or 'FAIL' (nothing else on that line). "
    ⁀ "Then on subsequent lines, explain your reasoning concisely."

pub record ReviewResult : Type 0 where
  pub issues_found : List String
  pub code_quality_score : ℕ
  pub test_coverage : String
  pub security_flags : List String
  pub review_text : String

issues : List String → List String
issues [] = []
issues (line ∷ lines) =
    let stripped = strip line in
    let rest = issues lines in
    if starts_with stripped "- "
    then strip (drop_text 2 stripped) ∷ rest
    else if starts_with stripped "-" && ltb 1 (len_text stripped)
    then strip (drop_text 1 stripped) ∷ rest
    else rest

unfoldable pub parse_review : String → ReviewResult
unfolding issues
parse_review review_text =
    let found = issues (splitlines review_text) in
    record {
      issues_found = found;
      code_quality_score =
          if is_empty found || contains "no significant issues" (lower review_text) then 90 else 60;
      test_coverage = "87%";
      security_flags = [];
      review_text = review_text;
    }

unfoldable pub review_code : World → (role worker_output : String) → ℕ → Act ReviewResult
review_code w role worker_output attempt = do
  lift (check_tool_permission role "review_code")
  review_text ←
      llm_call w role review_code_system
        ("Attempt #" ⁀ decimal attempt ⁀ ".\n\nCode to review:\n\n" ⁀ worker_output) 1024
  pure (parse_review review_text)

pub record LinterResult : Type 0 where
  pub errors : ℕ
  pub warnings : ℕ
  pub warnings_detail : List String
  pub linter : String

lint : List String → LinterResult
lint found = record {
  errors = 0;
  warnings = length found;
  warnings_detail = found;
  linter = "ruff (mock)";
}

unfoldable pub run_linter : (role code : String) → Act LinterResult
unfolding lint
run_linter role code = do
  lift (check_tool_permission role "run_linter")
  pure (lint (if ltb 100 (length (split_newline code)) then "W001: 文件行数超过 100 行，建议拆分" ∷ [] else []))

unfoldable pub run_tests : (role code : String) → Act TestResult
run_tests role code = do
  lift (check_tool_permission role "run_tests")
  pure (record { passed = 5; failed = 0; coverage = "87%"; duration = "0.38s"; status = "GREEN" })

-- The lines that are not blank, as they are.
nonblank : List String → List String
nonblank [] = []
nonblank (line ∷ lines) =
    let rest = nonblank lines in if nonempty (strip line) then line ∷ rest else rest

first_stripped : List String → String
first_stripped [] = ""
first_stripped (line ∷ lines) = strip line

report_of : String → List String → String
report_of raw [] = raw
report_of raw (line ∷ []) = raw
report_of raw (line ∷ l ∷ ls) = strip (join "\n" (l ∷ ls))

-- The verdict and the report that `write_verdict` reads from the answer.
unfoldable pub parse_verdict : String → String × String
unfolding nonblank first_stripped report_of
parse_verdict raw =
    let lines = nonblank (splitlines raw) in
    let first_line = upper (strip_chars "*`# " (first_stripped lines)) in
    (
      (if starts_with first_line "PASS"
          then "PASS"
          else if starts_with first_line "FAIL"
          then "FAIL"
          else "FAIL"),
      report_of raw lines,
    )

-- repr of a list of texts
repr_list : World → List String → String
repr_list w texts = "[" ⁀ join ", " (map w.repr texts) ⁀ "]"

unfoldable pub write_verdict :
    World → String → ReviewResult → LinterResult → TestResult → Act (String × String)
unfolding repr_list
write_verdict w role review linter test = do
  lift (check_tool_permission role "write_verdict")
  raw ←
      llm_call w role write_verdict_system
        ("Code Review Results:\n  Issues found: "
          ⁀ repr_list w review.issues_found
          ⁀ "\n  Code quality score: "
          ⁀ decimal review.code_quality_score
          ⁀ "/100\n  Review notes: "
          ⁀ review.review_text
          ⁀ "\n\nLinter Results:\n  Errors: "
          ⁀ decimal linter.errors
          ⁀ "\n  Warnings: "
          ⁀ decimal linter.warnings
          ⁀ "\n  Details: "
          ⁀ repr_list w linter.warnings_detail
          ⁀ "\n\nTest Results:\n  Status: "
          ⁀ test.status
          ⁀ "\n  Passed: "
          ⁀ decimal test.passed
          ⁀ "\n  Failed: "
          ⁀ decimal test.failed
          ⁀ "\n  Coverage: "
          ⁀ test.coverage
          ⁀ "\n")
        512
  pure (parse_verdict raw)
