-- ===== src/Agents/Execution/Pipeline.antt =====
-- agents/execution/pipeline.py
pub mod Delivery
use nexus_ai_team.Prelude.{ℕ, String, Bool, true, false, ◌&&◌, Option, none, some, List}
use nexus_ai_team.Effects.{pure, ◌>>=◌}
use nexus_ai_team.NexusV1.ModelRouter.{Env, Agent}
use nexus_ai_team.NexusV1.Admin.{Payload, WorkOrder, create_work_order}
use nexus_ai_team.NexusV1.Admin.Compress.{Turn}
use nexus_ai_team.Agents.Execution.{ExecutionResult}
use nexus_ai_team.Agents.Execution.Escalation.{
  EscalationStatus, success, escalated, failed, needs_board, EscalationResult,
  execute_with_escalation,
}

pub record EscalationInfo : Type 0 where
  pub status : EscalationStatus
  pub chain : List String
  pub attempts : ℕ

pub record PipelineResult : Type 0 where
  pub work_order_id : String
  pub success : Bool
  pub output : String
  pub qa_passed : Bool
  pub escalation_info : EscalationInfo
  pub board_notification : Option String

validate_with_qa : EscalationResult → Bool
validate_with_qa r = elim r.final_result [ none ↦ false | some result ↦ result.self_test_passed ]

abbrev pub is_done : EscalationStatus → Bool
is_done success = true
is_done escalated = true
is_done failed = false
is_done needs_board = false

unfoldable pub pipeline_result : WorkOrder → EscalationResult → PipelineResult
unfolding validate_with_qa
pipeline_result order r = record {
  work_order_id = order.id;
  success = is_done r.status && validate_with_qa r;
  output = elim r.final_result [ none ↦ "" | some result ↦ result.output ];
  qa_passed = validate_with_qa r;
  escalation_info = record {
    status = r.status;
    chain = r.escalation_chain;
    attempts = r.attempt_count;
  };
  board_notification = r.board_notification;
}

unfoldable pub process :
    Env Payload → (use_llm : Bool) → (user_message : String) → List Turn → Agent PipelineResult
unfolding ◌>>=◌
process env use_llm user_message conversation = do
  order ← create_work_order env use_llm user_message conversation none
  r ← execute_with_escalation env order
  pure (pipeline_result order r)
