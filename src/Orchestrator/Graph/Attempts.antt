-- ===== src/Orchestrator/Graph/Attempts.antt =====
-- The attempt counter, which the worker and the manager's reassignment share.
use nexus_ai_team.Prelude.{ℕ, ◌≤◌, ◌<◌, ◌≡◌, Bool, ◌⊎◌, Option, arith}
use nexus_ai_team.Orchestrator.State.{State, max_retries}
use nexus_ai_team.Orchestrator.System.{World, System}
use nexus_ai_team.Orchestrator.Nodes.Ceo.{HumanResponse}
use nexus_ai_team.Orchestrator.Graph.{
  Node, ceo_dispatch, manager_plan, worker_accept, manager_reassign, worker_execute, run,
}
use nexus_ai_team.Orchestrator.Graph.Induction.{Holds, Cases, run_induction}

module _ (cap : ℕ) where
  -- At most as many attempts as the larger of the contract's limit `cap` and `max_retries`.
  abbrev pub IsWithin : State → Type 0
  IsWithin t = (t.max_attempts ≡ cap) × ((t.attempt_count ≤ cap) ⊎ (t.attempt_count ≤ max_retries))

  -- In front of a node that starts an attempt, one more is allowed.
  abbrev pub HasRoom : Node → State → Type 0
  HasRoom ceo_dispatch s = (s.max_attempts ≡ cap) × (s.attempt_count < max_retries)
  HasRoom manager_plan s = (s.max_attempts ≡ cap) × (s.attempt_count < max_retries)
  HasRoom worker_accept s = (s.max_attempts ≡ cap) × (s.attempt_count < max_retries)
  HasRoom manager_reassign s = (s.max_attempts ≡ cap) × (s.attempt_count < max_retries)
  HasRoom worker_execute s =
      (s.max_attempts ≡ cap) × ((s.attempt_count < cap) ⊎ (s.attempt_count < max_retries))
  HasRoom _ s = IsWithin s

  cases : Cases HasRoom IsWithin
  cases = record {
    dispatch = λ s t i h. ground arith;
    plan = λ s t i h. ground arith;
    accept = λ s t i h. ground arith;
    reassign = λ s t i h. ground arith;
    work = λ s t i h. ground arith;
    review = λ s t i h. ground arith;
    judge = λ s t i h. ground arith;
    check = λ s t i h. ground arith;
    decide = λ s t i h. ground arith;
    close = λ s t i h. ground arith;
  }

-- In a run from `ceo_dispatch` with fewer than `max_retries` attempts counted, the count of the
-- final state, and of every state in which the run pauses or uses its steps up, is at most the
-- larger of the contract's `max_attempts` and `max_retries`; `max_attempts` itself never changes.
pub run-IsWithin :
    (w : World) (waits : Node → Bool) (limit : ℕ) (resume : Option HumanResponse) (s : State)
    (sys : System)
    → s.attempt_count < max_retries
    → Holds
        (HasRoom s.max_attempts)
        (IsWithin s.max_attempts)
        (run w waits resume limit ceo_dispatch s sys)
run-IsWithin w waits limit resume s sys h =
    run_induction (HasRoom s.max_attempts) (IsWithin s.max_attempts) (cases s.max_attempts) w waits
      limit resume ceo_dispatch s sys (ground arith)
