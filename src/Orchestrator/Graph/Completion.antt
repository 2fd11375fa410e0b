-- ===== src/Orchestrator/Graph/Completion.antt =====
-- How a run of the graph can finish.
use nexus_ai_team.Prelude.{ℕ, ◌≤◌, ◌≡◌, Bool, true, false, ◌⊎◌, Option, arith, eq_iff}
use nexus_ai_team.Orchestrator.State.{State}
use nexus_ai_team.Orchestrator.System.{World, System}
use nexus_ai_team.Orchestrator.Nodes.Ceo.{HumanResponse}
use nexus_ai_team.Orchestrator.Graph.{
  Node, ceo_approve, ceo_handle_escalation, Outcome, finished, raised, paused, out_of_steps, run,
}
use nexus_ai_team.Orchestrator.Graph.Termination.{bound, Ends, run-Ends}
use nexus_ai_team.Orchestrator.Graph.Induction.{Holds, Cases, run_induction}

-- The CEO approved work that QA passed.
pub record IsCompleted (t : State) : Type 0 where
  pub approved : t.ceo_approved ≡ true
  pub phase : t.current_phase ≡ "completed"
  pub verdict : t.qa_verdict ≡ "PASS"
  pub not_escalated : t.escalated ≡ false

pub record IsEscalated (t : State) : Type 0 where
  pub not_approved : t.ceo_approved ≡ false
  pub phase : t.current_phase ≡ "escalated"
  pub escalated : t.escalated ≡ true

-- The CEO refused work that QA passed, and no attempt was left.
pub record IsRefused (t : State) : Type 0 where
  pub not_approved : t.ceo_approved ≡ false
  pub phase : t.current_phase ≡ "rejected"
  pub verdict : t.qa_verdict ≡ "PASS"
  pub not_escalated : t.escalated ≡ false
  pub exhausted : t.max_attempts ≤ t.attempt_count

abbrev pub IsSettled : State → Type 0
IsSettled t = IsCompleted t ⊎ (IsEscalated t ⊎ IsRefused t)

-- In front of each node.
abbrev pub IsOpen : Node → State → Type 0
IsOpen ceo_handle_escalation s = s.ceo_approved ≡ false
IsOpen ceo_approve s = (s.ceo_approved ≡ false) × (s.escalated ≡ false) × (s.qa_verdict ≡ "PASS")
IsOpen _ s = (s.ceo_approved ≡ false) × (s.escalated ≡ false)

cases : Cases IsOpen IsSettled
cases = record {
  dispatch = λ s t i h. ground arith;
  plan = λ s t i h. ground arith;
  accept = λ s t i h. ground arith;
  reassign = λ s t i h. ground arith;
  work = λ s t i h. ground arith;
  review = λ s t i h. ground arith;
  judge = λ s t i h. ground (arith, eq_iff t.qa_verdict "PASS");
  check = λ s t i h. ground arith;
  decide = λ s t i h. ground arith;
  close = λ s t i h. ground arith;
}

abbrev pub Settles : Outcome → Type 0
Settles (finished t sys) = IsSettled t
Settles (raised e t sys) = Unit
Settles (paused n t sys) = IsOpen n t
Settles (out_of_steps n t sys) = ⊥

both : (o : Outcome) → Holds IsOpen IsSettled o → Ends o → Settles o
both (finished t sys) h e = h
both (raised x t sys) h e = h
both (paused n t sys) h e = h
both (out_of_steps n t sys) h e = e

-- A run that starts with an open contract and has at least `bound` steps to go does not use its
-- steps up. If it finishes, then the CEO approved work that QA passed, or the contract was
-- escalated, or the CEO refused work that QA passed and every attempt was used. If it pauses, the
-- contract is still open, and in front of `ceo_approve` QA has passed the work.
pub run-Settles :
    (w : World) (waits : Node → Bool) (limit : ℕ) (resume : Option HumanResponse) (n : Node)
    (s : State) (sys : System)
    → IsOpen n s
    → bound n s ≤ limit
    → Settles (run w waits resume limit n s sys)
run-Settles w waits limit resume n s sys i h =
    both _ (run_induction IsOpen IsSettled cases w waits limit resume n s sys i)
      (run-Ends w waits limit resume n s sys h)
