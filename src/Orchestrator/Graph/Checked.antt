-- ===== src/Orchestrator/Graph/Checked.antt =====
-- A contract with `check_after_seconds`: the work leads to the progress check, whose label for
-- work that is on track is no key of the path map.
use nexus_ai_team.Prelude.{ℕ, ◌≤◌, ◌≡◌, Bool, true, false, Option, some, arith, ◌∙◌}
use nexus_ai_team.Prelude.Text.{nonempty}
use nexus_ai_team.Orchestrator.State.{State}
use nexus_ai_team.Orchestrator.System.{World, System}
use nexus_ai_team.Orchestrator.Nodes.Ceo.{HumanResponse}
use nexus_ai_team.Orchestrator.Nodes.Accept.{should_reject}
use nexus_ai_team.Orchestrator.Graph.{
  Node, ceo_dispatch, manager_plan, worker_accept, worker_execute, progress_check, Outcome,
  finished, raised, paused, out_of_steps, run,
}
use nexus_ai_team.Orchestrator.Graph.Routes.{check_target}
use nexus_ai_team.Orchestrator.Graph.Frames.{Checks}
use nexus_ai_team.Orchestrator.Graph.Termination.{bound, Ends, run-Ends}
use nexus_ai_team.Orchestrator.Graph.Induction.{Cases, Lands, Holds, run_induction}

module _ (seconds : ℕ) where
  -- In front of each node that such a contract can reach, if no worker refuses it.
  abbrev pub IsChecked : Node → State → Type 0
  IsChecked ceo_dispatch s =
      (s.check_after_seconds ≡ some seconds) × (should_reject s ≡ false) × (s.escalated ≡ false)
  IsChecked manager_plan s =
      (s.check_after_seconds ≡ some seconds) × (should_reject s ≡ false) × (s.escalated ≡ false)
  IsChecked worker_accept s =
      (s.check_after_seconds ≡ some seconds) × (should_reject s ≡ false) × (s.escalated ≡ false)
  IsChecked worker_execute s = (s.check_after_seconds ≡ some seconds) × (s.escalated ≡ false)
  IsChecked progress_check s = (nonempty s.worker_output ≡ true) × (s.escalated ≡ false)
  IsChecked _ s = ⊥

  on_track :
      (s t : State)
      → IsChecked progress_check s
      → Checks s t
      → Lands IsChecked (λ u. ⊥) t (check_target t)
  on_track s t (delivered, calm) (frame, heard) =
      let (on, same) = heard delivered in rw (on, same ∙ calm) tt

  cases : Cases IsChecked (λ t. ⊥)
  unfolding should_reject
  cases = record {
    dispatch = λ s t i h. ground arith;
    plan = λ s t i h. ground arith;
    accept = λ s t i h. ground arith;
    reassign = λ s t i h. absurd i;
    work = λ s t i h. ground arith;
    review = λ s t i h. absurd i;
    judge = λ s t i h. absurd i;
    check = λ s t i h. on_track s t i h;
    decide = λ s t i h. absurd i;
    close = λ s t i h. absurd i;
  }

  -- The run raised, or waits in front of a node before the check.
  abbrev pub Fails : Outcome → Type 0
  Fails (finished t sys) = ⊥
  Fails (raised e t sys) = Unit
  Fails (paused n t sys) = IsChecked n t
  Fails (out_of_steps n t sys) = ⊥

  both : (o : Outcome) → Holds IsChecked (λ t. ⊥) o → Ends o → Fails o
  both (finished t sys) h e = h
  both (raised x t sys) h e = e
  both (paused n t sys) h e = h
  both (out_of_steps n t sys) h e = e

-- A contract that asks for a progress check, that is not escalated and that no worker refuses is
-- never finished: a run
-- from `ceo_dispatch` with at least `bound` steps to go ends in an exception, or is interrupted
-- before the check.
pub run-Fails :
    (w : World) (waits : Node → Bool) (limit : ℕ) (resume : Option HumanResponse) (s : State)
    (sys : System) (seconds : ℕ)
    → s.check_after_seconds ≡ some seconds
    → should_reject s ≡ false
    → s.escalated ≡ false
    → bound ceo_dispatch s ≤ limit
    → Fails seconds (run w waits resume limit ceo_dispatch s sys)
run-Fails w waits limit resume s sys seconds asked kept calm enough =
    both seconds _
      (run_induction (IsChecked seconds) (λ t. ⊥) (cases seconds) w waits limit resume ceo_dispatch
        s sys (asked, kept, calm))
      (run-Ends w waits limit resume ceo_dispatch s sys enough)
