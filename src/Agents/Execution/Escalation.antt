-- ===== src/Agents/Execution/Escalation.antt =====
-- agents/execution/escalation.py
pub mod Climb
pub mod Cost
use nexus_ai_team.Prelude.{
  ℕ, suc, ◌+◌, nat_eq, leb, String, Bool, ◌==◌, Option, none, some, List, [], ◌∷◌, ◌++◌, length,
  get_or, if◌then◌else◌,
}
use nexus_ai_team.Prelude.Text.{◌⁀◌, join, decimal, nonempty, take_text}
use nexus_ai_team.Effects.{pure, ◌>>=◌}
use nexus_ai_team.NexusV1.ModelRouter.{Env, Agent}
use nexus_ai_team.NexusV1.Admin.{Payload, WorkOrder}
use nexus_ai_team.Agents.Execution.{ExecutionResult, clarification_needed, failed_result, execute}

pub data EscalationStatus : Type 0 where
  success escalated failed needs_board : EscalationStatus

pub record EscalationResult : Type 0 where
  pub work_order_id : String
  pub status : EscalationStatus
  pub final_result : Option ExecutionResult
  pub escalation_chain : List String
  pub attempt_count : ℕ
  pub board_notification : Option String

abbrev pub max_attempts : ℕ
max_attempts = 3

abbrev pub escalation_chain : List String
escalation_chain = "intern" ∷ "director" ∷ "ceo" ∷ []

-- What follows the first place of a role, that place included.
tail_from : String → List String → List String
tail_from role [] = []
tail_from role (r ∷ rs) = let rest = tail_from role rs in if r == role then r ∷ rs else rest

-- The chain from its start for a role that it does not have.
unfoldable pub chain_from : String → List String
unfolding tail_from
chain_from role = elim (tail_from role escalation_chain) [ [] ↦ escalation_chain | r ∷ rs ↦ r ∷ rs ]

error_details : Option ExecutionResult → String
error_details none = "Unknown error"
error_details (some result) =
    if nonempty (get_or result.error "")
    then get_or result.error ""
    else "Task failed self-test validation"

unfoldable pub create_board_notification :
    WorkOrder → (chain : List String) → Option ExecutionResult → String
unfolding error_details join decimal take_text
create_board_notification order chain last_result =
    "BOARD ESCALATION REQUIRED\n\nWork Order: "
    ⁀ order.id
    ⁀ "\nIntent: "
    ⁀ order.intent
    ⁀ "\nDifficulty: "
    ⁀ order.difficulty
    ⁀ "\n\nEscalation Chain: "
    ⁀ join " → " chain
    ⁀ "\nTotal Attempts: "
    ⁀ decimal (length chain)
    ⁀ "\n\nLast Error: "
    ⁀ error_details last_result
    ⁀ "\n\nRequest Context:\n"
    ⁀ take_text 500 order.compressed_context
    ⁀ "...\n\nThis task requires Board intervention or user clarification.\n"

needs_clarification : WorkOrder → EscalationResult
needs_clarification order = record {
  work_order_id = order.id;
  status = failed;
  final_result = some (failed_result order "admin" (clarification_needed order));
  escalation_chain = "admin" ∷ [];
  attempt_count = 0;
  board_notification = some "Request unclear - requires user clarification";
}

completed :
    WorkOrder → ExecutionResult → (attempt_count : ℕ) → (chain : List String) → EscalationResult
completed order result attempt_count chain = record {
  work_order_id = order.id;
  status = if nat_eq attempt_count 1 then success else escalated;
  final_result = some result;
  escalation_chain = chain;
  attempt_count = attempt_count;
  board_notification = none;
}

to_board :
    WorkOrder
    → (attempt_count : ℕ) → (chain : List String) → Option ExecutionResult
    → EscalationResult
unfolding create_board_notification
to_board order attempt_count chain last_result = record {
  work_order_id = order.id;
  status = needs_board;
  final_result = last_result;
  escalation_chain = chain;
  attempt_count = attempt_count;
  board_notification = some (create_board_notification order chain last_result);
}

module _ (env : Env Payload) (order : WorkOrder) where
  -- The loop over the roles that are left, with what it keeps from one attempt to the next.
  attempts :
      (roles : List String)
      → (attempt_count : ℕ) → (chain : List String) → Option ExecutionResult
      → Agent EscalationResult
  unfolding completed to_board ◌>>=◌
  attempts [] attempt_count chain last_result =
      pure (to_board order attempt_count chain last_result)
  attempts (role ∷ roles) attempt_count chain last_result =
      if leb max_attempts attempt_count
      then pure (to_board order attempt_count chain last_result)
      else execute env order (some role) >>= (λ result.
        if result.success
        then pure (completed order result (suc attempt_count) (chain ++ role ∷ []))
        else attempts roles (suc attempt_count) (chain ++ role ∷ []) (some result))

  unfoldable pub execute_with_escalation : Agent EscalationResult
  unfolding attempts chain_from needs_clarification
  execute_with_escalation =
      if order.difficulty == "unclear"
      then pure (needs_clarification order)
      else attempts (chain_from order.owner) 0 [] none
