-- ===== src/Agents/Execution/Escalation/Cost.antt =====
-- How often the models are asked for one work order.
use nexus_ai_team.Prelude.{
  ℕ, suc, ◌+◌, ◌*◌, String, Option, none, some, List, [], ◌∷◌, ◌++◌, length, arith,
}
use nexus_ai_team.Effects.Spends.{Spends-pure, Spends-if, Spends-bind, Spends-le}
use nexus_ai_team.NexusV1.ModelRouter.{Env}
use nexus_ai_team.NexusV1.ModelRouter.Requests.{requests, Asks}
use nexus_ai_team.NexusV1.Admin.{Payload, WorkOrder}
use nexus_ai_team.Agents.Execution.{ExecutionResult}
use nexus_ai_team.Agents.Execution.Requests.{execute-Asks}
use nexus_ai_team.Agents.Execution.Escalation.{attempts, chain_from, execute_with_escalation}
use nexus_ai_team.Agents.Execution.Escalation.Climb.{chain_from-IsChain}

module _ (env : Env Payload) (order : WorkOrder) where
  attempts-Asks :
      (roles : List String) (count : ℕ) (chain : List String) (last : Option ExecutionResult)
      → Asks (2 * length roles) (attempts env order roles count chain last)
  unfolding attempts
  attempts-Asks [] count chain last = Spends-pure requests _ _
  attempts-Asks (role ∷ roles) count chain last =
      Spends-if requests _ _ _ _ (Spends-pure requests _ _) (
        Spends-le (2 + 2 * length roles) _ _ (omega arith) (
          Spends-bind 2 (2 * length roles) _
            (λ result.
              Spends-if requests (2 * length roles) _ _ _ (Spends-pure requests _ _)
                (attempts-Asks roles (suc count) (chain ++ role ∷ []) (some result)))
            _ (execute-Asks env order (some role))))

  pub execute_with_escalation-Asks : Asks 6 (execute_with_escalation env order)
  unfolding execute_with_escalation
  execute_with_escalation-Asks = Spends-if requests 6 _ _ _ (Spends-pure requests 6 _) (
      Spends-le _ _ _ (omega (arith, (chain_from-IsChain order.owner).1))
        (attempts-Asks (chain_from order.owner) 0 [] none))
