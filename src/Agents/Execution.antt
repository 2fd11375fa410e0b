-- ===== src/Agents/Execution.antt =====
-- agents/execution/executor.py
pub mod Escalation
pub mod Pipeline
pub mod SelfTest
pub mod Requests
mod Tests
use nexus_ai_team.Prelude.{
  ℕ, String, Bool, true, false, not, ◌==◌, ◌&&◌, ltb, Option, none, some, List, [], ◌∷◌, ◌++◌,
  get_or, is_empty, if◌then◌else◌,
}
use nexus_ai_team.Prelude.Text.{◌⁀◌, strip, nonempty, upper, contains, join, len_text}
use nexus_ai_team.Effects.{Error, pure, catch, ◌>>=◌}
use nexus_ai_team.NexusV1.ModelRouter.{text, TokenCounts, Message, Env, Calls, Agent, chat}
use nexus_ai_team.NexusV1.Admin.{Payload, WorkOrder}

pub record ExecutionResult : Type 0 where
  pub work_order_id : String
  pub agent_role : String
  pub success : Bool
  pub output : String
  pub error : Option String
  pub self_test_passed : Bool
  pub model_used : Option String
  pub usage : Option TokenCounts

pub record ExecutionOutput : Type 0 where
  pub output : String
  pub model : String
  pub usage : Option TokenCounts

-- The f-string of a question, which may be None.
unfoldable pub clarification_needed : WorkOrder → String
clarification_needed order = "Clarification needed: " ⁀ get_or order.clarification_question "None"

unfoldable pub failed_result : WorkOrder → (role error : String) → ExecutionResult
failed_result order role error = record {
  work_order_id = order.id;
  agent_role = role;
  success = false;
  output = "";
  error = some error;
  self_test_passed = false;
  model_used = none;
  usage = none;
}

role_description : String → String
role_description role =
    if role == "ceo"
    then "You are the CEO of NEXUS, handling complex and critical tasks. You have extensive experience and deep expertise."
    else if role == "director"
    then "You are a Director at NEXUS, handling normal-complexity tasks efficiently and professionally."
    else if role == "intern"
    then "You are an Intern at NEXUS, handling straightforward tasks quickly and correctly."
    else "You are an agent at NEXUS, executing tasks professionally."

build_system_prompt : (role : String) → WorkOrder → String
unfolding role_description
build_system_prompt role order =
    role_description role
    ⁀ "\n\nYour task is classified as: "
    ⁀ order.difficulty
    ⁀ "\nIntent: "
    ⁀ order.intent
    ⁀ "\n\nExecute the task according to the requirements. Be concise, accurate, and complete.\nIf files are referenced, assume they exist in the project context.\n"

build_user_prompt : WorkOrder → String
unfolding join
build_user_prompt order = join "\n" (
    ("Work Order ID: " ⁀ order.id) ∷ ("\n" ⁀ order.compressed_context) ∷ []
    ++ (if is_empty order.relevant_files
        then []
        else ("\nRelevant files: " ⁀ join ", " order.relevant_files) ∷ [])
    ++ ("\nQA Requirements: " ⁀ order.qa_requirements) ∷ []
    ++ (if nonempty (get_or order.deadline "")
        then ("\nDeadline: " ⁀ get_or order.deadline "") ∷ []
        else [])
    ++ "\nPlease execute this task:" ∷ [])

pub verification_prompt : WorkOrder → (output : String) → String
verification_prompt order output =
    "You are a quality assurance agent reviewing work output.\n\nWork Order ID: " ⁀ order.id
    ⁀ "\nIntent: " ⁀ order.intent ⁀ "\nQA Requirements: " ⁀ order.qa_requirements
    ⁀ "\n\nOutput to verify:\n" ⁀ output
    ⁀ "\n\nDoes this output meet the QA requirements? Answer with EXACTLY one of:\n- PASS: if the output clearly meets all requirements\n- FAIL: if the output is incomplete, incorrect, or does not meet requirements\n\nYour answer (PASS or FAIL only):"

-- The answer that counts as a pass.
unfoldable pub is_pass : String → Bool
unfolding strip upper contains
is_pass answer =
    let result = upper (strip answer) in contains "PASS" result && not (contains "FAIL" result)

module _ (env : Env Payload) where
  unfoldable pub execute_task : WorkOrder → (role : String) → Agent ExecutionOutput
  unfolding build_system_prompt build_user_prompt strip ◌>>=◌
  execute_task order role = do
    response ←
        chat env
          (record { role = "system"; content = text (build_system_prompt role order) }
            ∷ record { role = "user"; content = text (build_user_prompt order) }
            ∷ [])
          role (some 20) (some 4096)
    pure
        (record { output = strip response.content; model = response.model; usage = response.usage })

  ask_for_verdict : WorkOrder → (output role : String) → Agent Bool
  unfolding verification_prompt is_pass ◌>>=◌
  ask_for_verdict order output role = do
    response ←
        chat env (record { role = "user"; content = text (verification_prompt order output) } ∷ [])
          role (some 0) (some 50)
    pure (is_pass response.content)

  -- An error of the reviewing model fails the test.
  unfoldable pub self_test : WorkOrder → ExecutionOutput → (role : String) → Agent Bool
  unfolding strip len_text ask_for_verdict
  self_test order execution_output role =
      if ltb (len_text (strip execution_output.output)) 10
      then pure false
      else catch (ask_for_verdict order execution_output.output role) (λ e. pure false)

  tested_result : WorkOrder → (role : String) → ExecutionOutput → (passed : Bool) → ExecutionResult
  tested_result order role made passed = record {
    work_order_id = order.id;
    agent_role = role;
    success = passed;
    output = made.output;
    error = none;
    self_test_passed = passed;
    model_used = some made.model;
    usage = made.usage;
  }

  attempt : WorkOrder → (role : String) → Agent ExecutionResult
  unfolding tested_result ◌>>=◌
  attempt order role = do
    made ← execute_task order role
    passed ← self_test order made role
    pure (tested_result order role made passed)

  unfoldable pub execute : WorkOrder → (override_role : Option String) → Agent ExecutionResult
  unfolding attempt
  execute order override_role =
      let role = get_or override_role order.owner in
      if order.difficulty == "unclear" && nonempty (get_or order.clarification_question "")
      then pure (failed_result order role (clarification_needed order))
      else catch (attempt order role)
          (λ e. pure (failed_result order role ("Execution error: " ⁀ env.shown e)))
