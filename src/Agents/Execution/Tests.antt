-- ===== src/Agents/Execution/Tests.antt =====
-- Runs of the pipeline.
use nexus_ai_team.Prelude.{◌≡◌, refl, ◌⊎◌, String, true, false, none, List, [], ◌∷◌}
use nexus_ai_team.Effects.{Result, ok, err}
use nexus_ai_team.Effects.Yields.{Yields}
use nexus_ai_team.NexusV1.ModelRouter.Requests.{Asks}
use nexus_ai_team.Effects.{catch}
use nexus_ai_team.NexusV1.Config.{owner_for_difficulty, get_model_target, resolved_api_key}
use nexus_ai_team.NexusV1.ModelRouter.{chat, chat_target, sanitize_messages}
use nexus_ai_team.Agents.Execution.{execute, execute_task, self_test, failed_result}
use nexus_ai_team.NexusV1.Admin.{
  WorkOrder, create_work_order, compress_message, classify_request, classify_with_heuristic,
  classify_with_llm,
}
use nexus_ai_team.NexusV1.Admin.Signals.{infer_difficulty}
use nexus_ai_team.NexusV1.Samples.{online, offline, no_calls}
use nexus_ai_team.Agents.Execution.Escalation.{execute_with_escalation, EscalationResult}
use nexus_ai_team.Agents.Execution.Pipeline.{PipelineResult, process, pipeline_result}
use nexus_ai_team.Agents.Execution.Pipeline.Delivery.{
  IsDelivered, IsReported, process_delivers, process-Asks,
}

abbrev sample_order : WorkOrder
sample_order = record {
  id = "WO-20260101-0001";
  intent = "debug";
  difficulty = "normal";
  owner = "director";
  compressed_context = "Fix the typo";
  relevant_files = [];
  qa_requirements = "Must run without errors.";
  deadline = none;
  clarification_question = none;
  equipment_name = none;
}

abbrev chain_of : Result EscalationResult → List String
chain_of (ok r) = r.escalation_chain
chain_of (err e) = []

chain_sample :
    (chain_of (execute_with_escalation online sample_order no_calls).0 ≡ "director" ∷ [])
    × (chain_of (execute_with_escalation offline sample_order no_calls).0 ≡ "director" ∷ "ceo" ∷ [])
unfolding execute_with_escalation execute catch execute_task chat get_model_target chat_target
    resolved_api_key sanitize_messages self_test failed_result
chain_sample = (refl, refl)

abbrev output_of : Result PipelineResult → String
output_of (ok r) = r.output
output_of (err e) = "none"

output_sample :
    (output_of (process online false "Please fix the typo" [] no_calls).0 ≡ "The typo is fixed.")
    × (output_of (process offline true "Please fix the typo" [] no_calls).0 ≡ "")
unfolding process create_work_order compress_message classify_request classify_with_heuristic
    owner_for_difficulty infer_difficulty execute_with_escalation execute catch execute_task chat
    get_model_target chat_target resolved_api_key sanitize_messages self_test failed_result
    pipeline_result classify_with_llm
output_sample = (refl, refl)

process_delivers_example :
    Yields
      (λ r. IsDelivered online r ⊎ IsReported online r)
      (process online true "Please fix the typo" [])
process_delivers_example = process_delivers online true "Please fix the typo" []

process-Asks_example : Asks 8 (process online true "Please fix the typo" [])
process-Asks_example = process-Asks online true "Please fix the typo" []
