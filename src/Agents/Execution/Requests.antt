-- ===== src/Agents/Execution/Requests.antt =====
-- How often the models are asked for one message of the user.
use nexus_ai_team.Prelude.{String, Option}
use nexus_ai_team.Effects.Spends.{Spends-pure, Spends-if, Spends-bind, Spends-catch}
use nexus_ai_team.NexusV1.ModelRouter.{Env}
use nexus_ai_team.NexusV1.ModelRouter.Requests.{requests, Asks, chat-Asks}
use nexus_ai_team.NexusV1.Admin.{Payload, WorkOrder}
use nexus_ai_team.Agents.Execution.{
  ExecutionOutput, execute_task, ask_for_verdict, self_test, attempt, execute,
}

module _ (env : Env Payload) (order : WorkOrder) where
  task-Asks : (role : String) → Asks 1 (execute_task env order role)
  unfolding execute_task
  task-Asks role =
      Spends-bind 1 0 _ (λ response. Spends-pure requests 0 _) _ (chat-Asks env _ _ _ _)

  verdict-Asks : (output role : String) → Asks 1 (ask_for_verdict env order output role)
  unfolding ask_for_verdict
  verdict-Asks output role =
      Spends-bind 1 0 _ (λ response. Spends-pure requests 0 _) _ (chat-Asks env _ _ _ _)

  self_test-Asks : (made : ExecutionOutput) (role : String) → Asks 1 (self_test env order made role)
  unfolding self_test
  self_test-Asks made role =
      Spends-if requests 1 _ _ _ (Spends-pure requests 1 _)
        (Spends-catch 1 0 _ (λ e. Spends-pure requests 0 _) _ (verdict-Asks _ role))

  attempt-Asks : (role : String) → Asks 2 (attempt env order role)
  unfolding attempt
  attempt-Asks role =
      Spends-bind 1 1 _
        (λ made.
          Spends-bind 1 0 _ (λ passed. Spends-pure requests 0 _) _ (self_test-Asks made role))
        _ (task-Asks role)

  pub execute-Asks : (override_role : Option String) → Asks 2 (execute env order override_role)
  unfolding execute
  execute-Asks override_role =
      Spends-if requests 2 _ _ _ (Spends-pure requests 2 _)
        (Spends-catch 2 0 _ (λ e. Spends-pure requests 0 _) _ (attempt-Asks _))
