-- ===== src/Orchestrator/Graph/Tests.antt =====
-- Runs of the graph on concrete contracts.
use nexus_ai_team.Prelude.{◌≡◌, refl, none, some, arith}
use nexus_ai_team.Prelude.Text.{contains, upper, decimal, strip}
use nexus_ai_team.Effects.{ok, Result, ◌>>=◌}
use nexus_ai_team.Orchestrator.Approval.{create, reject_in, fresh_request}
use nexus_ai_team.Orchestrator.State.{State}
use nexus_ai_team.Orchestrator.System.{System, new_id, now, on_approvals}
use nexus_ai_team.Orchestrator.Nodes.Ceo.{HumanResponse}
use nexus_ai_team.Orchestrator.Nodes.Ceo
use nexus_ai_team.Orchestrator.Nodes.Accept.{should_reject}
use nexus_ai_team.Orchestrator.Samples.{approving, refusing, idle, contract_of, plain, passed}
use nexus_ai_team.Effects.Ensures.{Ensures}
use nexus_ai_team.Orchestrator.Graph.{
  ceo_dispatch, ceo_approve, next, execute, no_interrupts, human_interrupts, run,
}
use nexus_ai_team.Orchestrator.Graph.Termination.{Ends, run-Ends}
use nexus_ai_team.Orchestrator.Graph.Induction.{Holds, Lands}
use nexus_ai_team.Orchestrator.Graph.Completion.{Settles, run-Settles}
use nexus_ai_team.Orchestrator.Graph.Attempts.{HasRoom, IsWithin, run-IsWithin}
use nexus_ai_team.Orchestrator.Graph.Mails.{HasLegalLog, run-HasLegalLog}
use nexus_ai_team.Orchestrator.Graph.Phases.{InPhase}
use nexus_ai_team.Orchestrator.Graph.Posts.{Posts}
use nexus_ai_team.Orchestrator.Graph.Deliveries.{execute-Posts}
use nexus_ai_team.Orchestrator.Graph.Rework.{IsUnfinished, refusal-IsUnfinished}
use nexus_ai_team.Orchestrator.Graph.Checked.{Fails, run-Fails}
use nexus_ai_team.Orchestrator.Graph.Refusal.{IsRefusedAt, IsGivenUp, run-IsGivenUp}

abbrev checked : State
checked = contract_of "CTR-2" "ai" (some 60)

abbrev marked : State
marked = contract_of "ctr-reject-3" "ai" none

run-Settles_example : Settles (run approving no_interrupts none 22 ceo_dispatch plain idle)
run-Settles_example =
    run-Settles approving no_interrupts 22 none ceo_dispatch plain idle (refl, refl) (omega arith)

run-Ends_example : Ends (run refusing human_interrupts none 22 ceo_dispatch plain idle)
run-Ends_example = run-Ends refusing human_interrupts 22 none ceo_dispatch plain idle (omega arith)

run-IsWithin_example :
    Holds (HasRoom 2) (IsWithin 2) (run approving no_interrupts none 22 ceo_dispatch plain idle)
run-IsWithin_example = run-IsWithin approving no_interrupts 22 none plain idle (omega arith)

run-HasLegalLog_example :
    Holds
      (λ m. HasLegalLog)
      HasLegalLog
      (run approving no_interrupts none 22 ceo_dispatch plain idle)
run-HasLegalLog_example = run-HasLegalLog approving no_interrupts 22 none ceo_dispatch plain idle tt

execute-Posts_example :
    Ensures
      (λ t. Posts ceo_dispatch plain t × Lands InPhase (λ u. Unit) t (next ceo_dispatch t))
      (execute approving none ceo_dispatch plain)
execute-Posts_example = execute-Posts approving none ceo_dispatch plain refl

abbrev no : HumanResponse
no = record { action = some "reject"; notes = some "Not sorted" }

-- What the refusal leaves behind.
abbrev refusal_outcome : Result State × System
refusal_outcome = Ceo.ceo_approve approving (passed "human") (some no) idle

refusal : refusal_outcome ≡ (
  ok (Ceo.rejected_state (passed "human") "APR-ABCDEF10" " 被拒绝。" "Not sorted"),
  refusal_outcome.1,
)
unfolding Ceo.ceo_approve Ceo.ask_human ◌>>=◌ Ceo.create_request new_id now on_approvals create
    Ceo.await_human Ceo.settle_human reject_in fresh_request decimal strip
refusal = refl

refusal-IsUnfinished_example :
    IsUnfinished (run approving human_interrupts (some no) 30 ceo_approve (passed "human") idle)
unfolding Ceo.rejected_state
refusal-IsUnfinished_example =
    refusal-IsUnfinished approving human_interrupts 30 (some no) (passed "human")
      (Ceo.rejected_state (passed "human") "APR-ABCDEF10" " 被拒绝。" "Not sorted") idle
      refusal_outcome.1 refusal refl (omega arith)

run-Fails_example : Fails 60 (run approving no_interrupts none 22 ceo_dispatch checked idle)
unfolding should_reject contains upper
run-Fails_example =
    run-Fails approving no_interrupts 22 none checked idle 60 refl refl refl (omega arith)

run-IsGivenUp_example :
    Holds IsRefusedAt IsGivenUp (run approving no_interrupts none 22 ceo_dispatch marked idle)
unfolding should_reject contains upper
run-IsGivenUp_example = run-IsGivenUp approving no_interrupts 22 none marked idle refl (omega arith)
