-- ===== src/Orchestrator/Graph/Refusal.antt =====
-- A contract that every worker refuses.
use nexus_ai_team.Prelude.{ℕ, ◌<◌, ◌≡◌, Bool, true, false, Option, arith}
use nexus_ai_team.Orchestrator.State.{State, max_retries}
use nexus_ai_team.Orchestrator.System.{World, System}
use nexus_ai_team.Orchestrator.Nodes.Ceo.{HumanResponse}
use nexus_ai_team.Orchestrator.Nodes.Accept.{should_reject}
use nexus_ai_team.Orchestrator.Graph.{
  Node, ceo_dispatch, manager_plan, worker_accept, manager_reassign, ceo_handle_escalation, run,
}
use nexus_ai_team.Orchestrator.Graph.Induction.{Cases, Holds, run_induction}

-- In front of each node that a refused contract can reach.
abbrev pub IsRefusedAt : Node → State → Type 0
IsRefusedAt ceo_dispatch s = (should_reject s ≡ true) × (s.attempt_count < max_retries)
IsRefusedAt manager_plan s = (should_reject s ≡ true) × (s.attempt_count < max_retries)
IsRefusedAt worker_accept s = (should_reject s ≡ true) × (s.attempt_count < max_retries)
IsRefusedAt manager_reassign s = (should_reject s ≡ true) × (s.attempt_count < max_retries)
IsRefusedAt ceo_handle_escalation s = s.attempt_count ≡ max_retries
IsRefusedAt _ s = ⊥

pub record IsGivenUp (t : State) : Type 0 where
  pub not_approved : t.ceo_approved ≡ false
  pub phase : t.current_phase ≡ "escalated"
  pub escalated : t.escalated ≡ true
  pub attempts : t.attempt_count ≡ max_retries

cases : Cases IsRefusedAt IsGivenUp
unfolding should_reject
cases = record {
  dispatch = λ s t i h. ground arith;
  plan = λ s t i h. ground arith;
  accept = λ s t i h. ground arith;
  reassign = λ s t i h. ground arith;
  work = λ s t i h. absurd i;
  review = λ s t i h. absurd i;
  judge = λ s t i h. absurd i;
  check = λ s t i h. absurd i;
  decide = λ s t i h. absurd i;
  close = λ s t i h. ground arith;
}

-- A contract whose id holds the reject marker, with fewer than `max_retries` attempts counted, never
-- reaches a worker's execution, QA or the approval in a run from `ceo_dispatch`. If the run
-- finishes, the contract is escalated and not approved, after exactly `max_retries` attempts,
-- whatever its `max_attempts` is.
pub run-IsGivenUp :
    (w : World) (waits : Node → Bool) (limit : ℕ) (resume : Option HumanResponse) (s : State)
    (sys : System)
    → should_reject s ≡ true
    → s.attempt_count < max_retries
    → Holds IsRefusedAt IsGivenUp (run w waits resume limit ceo_dispatch s sys)
run-IsGivenUp w waits limit resume s sys marked few =
    run_induction IsRefusedAt IsGivenUp cases w waits limit resume ceo_dispatch s sys (marked, few)
