-- ===== src/Agents/Execution/Pipeline/Delivery.antt =====
-- What the pipeline promises for each message.
use nexus_ai_team.Prelude.{
  ◌≡◌, ◌≢◌, refl, ◌∙◌, String, Bool, true, false, ◌⊎◌, inl, inr, nat_eq, none, List, if◌then◌else◌,
}
use nexus_ai_team.Effects.Yields.{Yields, Yields-pure, Yields-bind}
use nexus_ai_team.Effects.Spends.{Spends-pure, Spends-bind}
use nexus_ai_team.NexusV1.ModelRouter.{Env}
use nexus_ai_team.NexusV1.ModelRouter.Requests.{requests, Asks}
use nexus_ai_team.NexusV1.Admin.{Payload, WorkOrder}
use nexus_ai_team.NexusV1.Admin.Compress.{Turn}
use nexus_ai_team.NexusV1.Admin.Orders.{create_work_order-IsWellFormed}
use nexus_ai_team.NexusV1.Admin.Requests.{create_work_order-Asks}
use nexus_ai_team.Agents.Execution.SelfTest.{IsPassed}
use nexus_ai_team.Agents.Execution.Escalation.{EscalationResult, success, escalated}
use nexus_ai_team.Agents.Execution.Escalation.Climb.{
  IsDone, IsGivenUp, IsReturned, IsHandled, execute_with_escalation_climbs,
}
use nexus_ai_team.Agents.Execution.Escalation.Cost.{execute_with_escalation-Asks}
use nexus_ai_team.Agents.Execution.Pipeline.{
  PipelineResult, is_done, validate_with_qa, pipeline_result, process,
}

done_status : (b : Bool) → is_done (if b then success else escalated) ≡ true
done_status true = refl
done_status false = refl

module _ (env : Env Payload) where
  -- Delivered with an output that the model let pass for the work order, or someone is told.
  pub record IsDelivered (r : PipelineResult) : Type 0 where
    pub succeeded : r.success ≡ true
    pub qa_passed : r.qa_passed ≡ true
    pub order : WorkOrder
    pub of_order : r.work_order_id ≡ order.id
    pub passed : IsPassed env order r.output
    pub quiet : r.board_notification ≡ none

  pub record IsReported (r : PipelineResult) : Type 0 where
    pub not_succeeded : r.success ≡ false
    pub notified : r.board_notification ≢ none

  module _ (order : WorkOrder) (r : EscalationResult) where
    done_lem : IsDone env order r → IsDelivered (pipeline_result order r)
    unfolding pipeline_result validate_with_qa
    done_lem d =
        let tested = d.last.tested in
        let qa = tested.tested ∙ d.passed in
        record {
          succeeded = rw (d.status, d.final, done_status (nat_eq r.attempt_count 1), qa) refl;
          qa_passed = rw (d.final) qa;
          order = order;
          of_order = refl;
          passed = rw (d.final) (tested.passed d.passed);
          quiet = d.quiet;
        }

    given_up_lem : IsGivenUp env order r → IsReported (pipeline_result order r)
    unfolding pipeline_result
    given_up_lem g = record { not_succeeded = rw g.status refl; notified = g.notified }

    returned_lem : IsReturned env order r → IsReported (pipeline_result order r)
    unfolding pipeline_result
    returned_lem g = record { not_succeeded = rw g.status refl; notified = g.asked }

    outcome_lem :
        IsHandled env order r
        → IsDelivered (pipeline_result order r) ⊎ IsReported (pipeline_result order r)
    outcome_lem (inl (unclear, returned)) = inr (returned_lem returned)
    outcome_lem (inr (clear, a)) = elim a.ends [
      | inl d ↦ inl (done_lem d)
      | inr g ↦ inr (given_up_lem g)
    ]

module _ (env : Env Payload) (use_llm : Bool) (user_message : String)
    (conversation : List Turn) where
  -- Whatever the models answer, the pipeline returns: either it succeeds without a notification,
  -- with an output of at least ten characters about which the model, asked with the verification
  -- prompt of the work order, replied with PASS and not with FAIL; or it does not succeed and there
  -- is a notification for the board or the user.
  pub process_delivers :
      Yields
        (λ r. IsDelivered env r ⊎ IsReported env r)
        (process env use_llm user_message conversation)
  unfolding process
  process_delivers =
      Yields-bind _
        (λ order _.
          Yields-bind _ (λ r outcome. Yields-pure _ (outcome_lem env order r outcome)) _
            (execute_with_escalation_climbs env order))
        _ (create_work_order-IsWellFormed env use_llm user_message conversation none)

  -- For one message the pipeline makes at most eight requests to the models.
  pub process-Asks : Asks 8 (process env use_llm user_message conversation)
  unfolding process
  process-Asks =
      Spends-bind 2 6 _
        (λ order.
          Spends-bind 6 0 _ (λ r. Spends-pure requests 0 (pipeline_result order r)) _
            (execute_with_escalation-Asks env order))
        _ (create_work_order-Asks env use_llm user_message conversation none)
