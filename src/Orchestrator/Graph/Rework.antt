-- ===== src/Orchestrator/Graph/Rework.antt =====
-- Work that the CEO refused while attempts are left goes back to the worker, whose report cannot
-- be sent: the phase `rejected` has no role.
use nexus_ai_team.Prelude.{
  ℕ, zero, suc, ◌<◌, ◌≡◌, Bool, false, Option, none, arith, Bool-cases, inl, inr,
}
use nexus_ai_team.Effects.{Result, ok, err}
use nexus_ai_team.Orchestrator.State.{State}
use nexus_ai_team.Orchestrator.System.{World, System}
use nexus_ai_team.Orchestrator.Nodes.Ceo
use nexus_ai_team.Orchestrator.Nodes.Ceo.{HumanResponse}
use nexus_ai_team.Effects.Ensures.{OnOk}
use nexus_ai_team.Orchestrator.Graph.{
  Node, worker_execute, ceo_approve, Outcome, finished, raised, paused, out_of_steps, Target, node,
  execute, arrive, after, run,
}
use nexus_ai_team.Orchestrator.Graph.Routes.{next-ceo_approve}
use nexus_ai_team.Orchestrator.Graph.Phases.{worker_execute_rejected}
use nexus_ai_team.Orchestrator.Graph.Frames

abbrev pub IsUnfinished : Outcome → Type 0
IsUnfinished (finished t sys) = ⊥
IsUnfinished (raised e t sys) = Unit
IsUnfinished (paused n t sys) = Unit
IsUnfinished (out_of_steps n t sys) = Unit

refused_phase :
    (s t : State) → t.ceo_approved ≡ false → Frames.Decides s t → t.current_phase ≡ "rejected"
refused_phase s t no_approval h = ground arith

module _ (w : World) (waits : Node → Bool) where
  after_failure :
      (go : Node → State → System → Outcome) (n : Node) (s : State) (r : Result State × System)
      → OnOk (λ t. ⊥) r.0
      → IsUnfinished (after waits go n s r)
  unfolding after
  after_failure go n s (err e, sys) h = tt
  after_failure go n s (ok t, sys) h = absurd h

  rework_fails :
      (limit : ℕ) (resume : Option HumanResponse) (t : State) (sys : System)
      → t.current_phase ≡ "rejected"
      → IsUnfinished (run w waits resume limit worker_execute t sys)
  unfolding run execute
  rework_fails zero resume t sys p = tt
  rework_fails (suc limit) resume t sys p =
      after_failure _ worker_execute t _ ((worker_execute_rejected t w p).at sys)

  arrive_at_worker :
      (limit : ℕ) (s t : State) (sys : System) (r : Result Target)
      → r ≡ ok (node worker_execute)
      → t.current_phase ≡ "rejected"
      → IsUnfinished (arrive waits (run w waits none limit) s t sys r)
  unfolding arrive
  arrive_at_worker limit s t sys r e p = elim (Bool-cases (waits worker_execute)) [
    | inl wait ↦ rw (e, wait) tt
    | inr go ↦ rw (e, go) (rework_fails limit none t sys p)
  ]

  -- When the CEO refuses work while attempts are left, the run never finishes, whatever its limit:
  -- it raises, or it is stopped before it can.
  pub refusal-IsUnfinished :
      (limit : ℕ) (resume : Option HumanResponse) (s t : State) (sys after_sys : System)
      → Ceo.ceo_approve w s resume sys ≡ (ok t, after_sys)
      → t.ceo_approved ≡ false
      → t.attempt_count < t.max_attempts
      → IsUnfinished (run w waits resume limit ceo_approve s sys)
  unfolding run execute after
  refusal-IsUnfinished zero resume s t sys after_sys e no_approval left = tt
  refusal-IsUnfinished (suc limit) resume s t sys after_sys e no_approval left = rw e (
      arrive_at_worker limit s t after_sys _ (ground (arith, next-ceo_approve t)) (
        let decided = (Frames.ceo_approve-Decides w s resume).at sys in
        refused_phase s t no_approval (rw e at decided)))
