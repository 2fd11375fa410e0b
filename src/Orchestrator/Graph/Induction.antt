-- ===== src/Orchestrator/Graph/Induction.antt =====
-- Invariants of a run: `I n s` holds in front of each node, and `F s` holds of the final state.
use nexus_ai_team.Prelude.{ℕ, zero, suc, Bool, Option, none, Bool-cases, inl, inr, if◌then◌else◌}
use nexus_ai_team.Effects.{Result, ok, err}
use nexus_ai_team.Orchestrator.State.{State}
use nexus_ai_team.Orchestrator.System.{World, System}
use nexus_ai_team.Orchestrator.Nodes.Ceo.{HumanResponse}
use nexus_ai_team.Orchestrator.Graph.{
  Node, ceo_dispatch, manager_plan, worker_accept, manager_reassign, worker_execute, qa_review,
  manager_review_after_qa, progress_check, ceo_approve, ceo_handle_escalation, Target, node, end,
  Outcome, finished, raised, paused, out_of_steps, next, execute, arrive, after, run,
}
use nexus_ai_team.Effects.Ensures.{OnOk, Ensures, Ensures-mono}
use nexus_ai_team.Orchestrator.Graph.Frames.{
  Moves, Answers, Reassigns, Works, Reviews, Judges, Checks, Decides, Closes, ceo_dispatch-Moves,
  manager_plan-Moves, worker_accept-Answers, manager_reassign-Reassigns, worker_execute-Works,
  qa_review-Reviews, manager_review_after_qa-Judges, check_progress-Checks, ceo_approve-Decides,
  ceo_handle_escalation-Closes,
}
use nexus_ai_team.Orchestrator.Graph.Routes.{
  accept_target, delivery_target, judgement_target, check_target, decision_target,
  next-worker_accept, next-manager_reassign, next-worker_execute, next-manager_review_after_qa,
  next-progress_check, next-ceo_approve,
}

module _ (I : Node → State → Type 0) (F : State → Type 0) where
  abbrev pub Lands : State → Result Target → Type 0
  Lands t (err e) = Unit
  Lands t (ok end) = F t
  Lands t (ok (node n)) = I n t

  abbrev pub Holds : Outcome → Type 0
  Holds (finished s sys) = F s
  Holds (raised e s sys) = Unit
  Holds (paused n s sys) = I n s
  Holds (out_of_steps n s sys) = I n s

  -- What is to show of each node: that its values lead from `I` to `I` or to `F`.
  pub record Cases : Type 0 where
    pub dispatch :
        (s t : State) → I ceo_dispatch s → Moves s "manager_planning" t → I manager_plan t
    pub plan : (s t : State) → I manager_plan s → Moves s "worker_executing" t → I worker_accept t
    pub accept :
        (s t : State)
        → I worker_accept s
        → Answers s t
        → Lands t (ok (accept_target t.contract_accepted))
    pub reassign :
        (s t : State)
        → I manager_reassign s
        → Reassigns s t
        → I (if t.escalated then ceo_handle_escalation else worker_accept) t
    pub work :
        (s t : State) → I worker_execute s → Works s t → I (delivery_target t.check_after_seconds) t
    pub review : (s t : State) → I qa_review s → Reviews s t → I manager_review_after_qa t
    pub judge : (s t : State) → I manager_review_after_qa s → Judges s t → I (judgement_target t) t
    pub check : (s t : State) → I progress_check s → Checks s t → Lands t (check_target t)
    pub decide : (s t : State) → I ceo_approve s → Decides s t → Lands t (ok (decision_target t))
    pub close : (s t : State) → I ceo_handle_escalation s → Closes s t → F t

  module _ (cases : Cases) (w : World) where
    open cases use {dispatch, plan, accept, reassign, work, review, judge, check, decide, close}

    pub step_rule :
        (resume : Option HumanResponse) (n : Node) (s : State)
        → I n s
        → Ensures (λ t. Lands t (next n t)) (execute w resume n s)
    unfolding execute next
    step_rule resume ceo_dispatch s i =
        Ensures-mono (λ t. dispatch s t i) _ (ceo_dispatch-Moves w s)
    step_rule resume manager_plan s i = Ensures-mono (λ t. plan s t i) _ (manager_plan-Moves w s)
    step_rule resume worker_accept s i =
        Ensures-mono (λ t h. rw next-worker_accept (accept s t i h)) _ (worker_accept-Answers w s)
    step_rule resume manager_reassign s i =
        Ensures-mono (λ t h. rw next-manager_reassign (reassign s t i h)) _
          (manager_reassign-Reassigns w s)
    step_rule resume worker_execute s i =
        Ensures-mono (λ t h. rw next-worker_execute (work s t i h)) _ (worker_execute-Works w s)
    step_rule resume qa_review s i = Ensures-mono (λ t. review s t i) _ (qa_review-Reviews w s)
    step_rule resume manager_review_after_qa s i =
        Ensures-mono (λ t h. rw next-manager_review_after_qa (judge s t i h)) _
          (manager_review_after_qa-Judges w s)
    step_rule resume progress_check s i =
        Ensures-mono (λ t h. rw next-progress_check (check s t i h)) _ (check_progress-Checks w s)
    step_rule resume ceo_approve s i =
        Ensures-mono (λ t h. rw next-ceo_approve (decide s t i h)) _
          (ceo_approve-Decides w s resume)
    step_rule resume ceo_handle_escalation s i =
        Ensures-mono (λ t. close s t i) _ (ceo_handle_escalation-Closes s)

module _ (I : Node → State → Type 0) (F : State → Type 0) (waits : Node → Bool)
    (go : Node → State → System → Outcome)
    (ih : (n : Node) (s : State) (sys : System) → I n s → Holds I F (go n s sys)) where
  arrive-Holds :
      (before t : State) (sys : System) (r : Result Target)
      → Lands I F t r
      → Holds I F (arrive waits go before t sys r)
  unfolding arrive
  arrive-Holds before t sys (err e) h = tt
  arrive-Holds before t sys (ok end) h = h
  arrive-Holds before t sys (ok (node n)) h = elim (Bool-cases (waits n)) [
    | inl wait ↦ rw wait h
    | inr go_on ↦ rw go_on (ih n t sys h)
  ]

  after-Holds :
      (n : Node) (s : State) (r : Result State × System)
      → OnOk (λ t. Lands I F t (next n t)) r.0
      → Holds I F (after waits go n s r)
  unfolding after
  after-Holds n s (ok t, sys) h = arrive-Holds s t sys (next n t) h
  after-Holds n s (err e, sys) h = tt

module _ (I : Node → State → Type 0) (F : State → Type 0) (w : World) (waits : Node → Bool)
    (step : (resume : Option HumanResponse) (n : Node) (s : State)
      → I n s
      → Ensures (λ t. Lands I F t (next n t)) (execute w resume n s)) where
  -- From a rule for one step.
  pub steps_induction :
      (limit : ℕ) (resume : Option HumanResponse) (n : Node) (s : State) (sys : System)
      → I n s
      → Holds I F (run w waits resume limit n s sys)
  unfolding run
  steps_induction zero resume n s sys h = h
  steps_induction (suc limit) resume n s sys h =
      after-Holds I F waits (run w waits none limit) (λ m t. steps_induction limit none m t) n s
        (execute w resume n s sys) ((step resume n s h).at sys)

-- From the cases of the nodes.
pub run_induction :
    (I : Node → State → Type 0) (F : State → Type 0) (cases : Cases I F) (w : World)
    (waits : Node → Bool) (limit : ℕ) (resume : Option HumanResponse) (n : Node) (s : State)
    (sys : System)
    → I n s
    → Holds I F (run w waits resume limit n s sys)
run_induction I F cases w waits = steps_induction I F w waits (step_rule I F cases w)
