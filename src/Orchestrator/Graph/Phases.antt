-- ===== src/Orchestrator/Graph/Phases.antt =====
-- The phase that each node finds; after a refusal by the CEO, which sets the phase `rejected`, nobody
-- sends the worker's mail.
use nexus_ai_team.Prelude.{◌≡◌, ◌⊎◌, arith, eq_iff}
use nexus_ai_team.Effects.Ensures.{Ensures, Ensures-seq, Ensures-bind}
use nexus_ai_team.Orchestrator.State.{State}
use nexus_ai_team.Orchestrator.System.{World}
use nexus_ai_team.Orchestrator.Mail.{resolve_from_role}
use nexus_ai_team.Orchestrator.Mail.Legal.{send_mail_unknown}
use nexus_ai_team.Orchestrator.Nodes.Worker.{worker_execute}
use nexus_ai_team.Orchestrator.Graph
use nexus_ai_team.Orchestrator.Graph.{Node}
use nexus_ai_team.Orchestrator.Graph.Induction.{Cases}

-- The phase in front of a node that sends mail in the name of the phase.
abbrev pub InPhase : Node → State → Type 0
InPhase Graph.ceo_dispatch s = s.current_phase ≡ "ceo_dispatch"
InPhase Graph.manager_plan s = s.current_phase ≡ "manager_planning"
InPhase Graph.worker_execute s =
    (s.current_phase ≡ "worker_accepted")
    ⊎ ((s.current_phase ≡ "worker_executing") ⊎ (s.current_phase ≡ "rejected"))
InPhase Graph.qa_review s = s.current_phase ≡ "qa_reviewing"
InPhase Graph.manager_review_after_qa s = s.current_phase ≡ "manager_review"
InPhase _ s = Unit

pub phase_cases : Cases InPhase (λ t. Unit)
phase_cases = record {
  dispatch = λ s t i h. ground arith;
  plan = λ s t i h. tt;
  accept = λ s t i h. ground arith;
  reassign = λ s t i h. ground arith;
  work = λ s t i h. ground arith;
  review = λ s t i h. ground arith;
  judge = λ s t i h. ground (arith, eq_iff t.qa_verdict "PASS");
  check = λ s t i h. ground arith;
  decide = λ s t i h. ground arith;
  close = λ s t i h. tt;
}

-- Nobody sends mail in the phase `rejected`: the worker's report raises, always.
pub worker_execute_rejected :
    (s : State) (w : World) → s.current_phase ≡ "rejected" → Ensures (λ t. ⊥) (worker_execute w s)
unfolding worker_execute resolve_from_role
worker_execute_rejected s w p = Ensures-seq _ _ λ c. Ensures-seq _ _ λ r. Ensures-seq _ _ λ g.
    Ensures-bind {Q = λ d. ⊥} _ (λ d f. absurd f) _
      (send_mail_unknown w s.current_phase _ _ _ _ (rw p tt))
