-- ===== src/Orchestrator/Graph/Termination.antt =====
-- Every run of the graph ends. `bound` falls at each step, whatever the model server answers.
use nexus_ai_team.Prelude.{
  ℕ, zero, suc, ◌+◌, ◌-◌, ◌*◌, ◌≤◌, ◌<◌, Bool, Option, none, arith, Bool-cases, inl, inr,
}
use nexus_ai_team.Effects.{Result, ok, err}
use nexus_ai_team.Orchestrator.State.{State, max_retries}
use nexus_ai_team.Orchestrator.System.{World, System}
use nexus_ai_team.Orchestrator.Nodes.Ceo.{HumanResponse}
use nexus_ai_team.Orchestrator.Graph.{
  Node, ceo_dispatch, manager_plan, worker_accept, manager_reassign, worker_execute, qa_review,
  manager_review_after_qa, progress_check, ceo_approve, ceo_handle_escalation, Target, node, end,
  Outcome, finished, raised, paused, out_of_steps, next, execute, arrive, after, run,
}
use nexus_ai_team.Orchestrator.Graph.Routes.{
  next-worker_accept, next-manager_reassign, next-worker_execute, next-manager_review_after_qa,
  next-progress_check, next-ceo_approve,
}
use nexus_ai_team.Effects.Ensures.{OnOk, Ensures, Ensures-mono}
use nexus_ai_team.Orchestrator.Graph.Frames

-- The steps that may still come from a node on.
abbrev pub bound : Node → State → ℕ
bound ceo_handle_escalation s = 1
bound progress_check s = 2
bound ceo_approve s = 1 + 4 * (s.max_attempts - s.attempt_count)
bound manager_review_after_qa s = 2 + 4 * (s.max_attempts - s.attempt_count)
bound qa_review s = 3 + 4 * (s.max_attempts - s.attempt_count)
bound worker_execute s = 4 + 4 * (s.max_attempts - (s.attempt_count + 1))
bound manager_reassign s = 5 + 4 * s.max_attempts + 2 * (max_retries - s.attempt_count)
bound worker_accept s = 6 + 4 * s.max_attempts + 2 * (max_retries - s.attempt_count)
bound manager_plan s = 7 + 4 * s.max_attempts + 2 * (max_retries - s.attempt_count)
bound ceo_dispatch s = 8 + 4 * s.max_attempts + 2 * (max_retries - s.attempt_count)

abbrev Below : ℕ → State → Result Target → Type 0
Below k t (err e) = Unit
Below k t (ok end) = Unit
Below k t (ok (node m)) = bound m t < k

module _ (s t : State) where
  after_accept : Frames.Answers s t → Below (bound worker_accept s) t (next worker_accept t)
  after_accept h = rw next-worker_accept (ground arith)

  after_reassign :
      Frames.Reassigns s t → Below (bound manager_reassign s) t (next manager_reassign t)
  after_reassign h = rw next-manager_reassign (ground arith)

  after_work : Frames.Works s t → Below (bound worker_execute s) t (next worker_execute t)
  after_work h = rw next-worker_execute (ground arith)

  after_judgement :
      Frames.Judges s t → Below (bound manager_review_after_qa s) t (next manager_review_after_qa t)
  after_judgement h = rw next-manager_review_after_qa (ground arith)

  after_check : Below (bound progress_check s) t (next progress_check t)
  after_check = rw next-progress_check (ground arith)

  after_decision : Frames.Decides s t → Below (bound ceo_approve s) t (next ceo_approve t)
  after_decision h = rw next-ceo_approve (ground arith)

module _ (w : World) where
  -- A step leads to a node with a smaller bound.
  step-Below :
      (resume : Option HumanResponse) (n : Node) (s : State)
      → Ensures (λ t. Below (bound n s) t (next n t)) (execute w resume n s)
  unfolding execute next
  step-Below resume ceo_dispatch s =
      Ensures-mono (λ t h. ground arith) _ (Frames.ceo_dispatch-Moves w s)
  step-Below resume manager_plan s =
      Ensures-mono (λ t h. ground arith) _ (Frames.manager_plan-Moves w s)
  step-Below resume worker_accept s =
      Ensures-mono (after_accept s) _ (Frames.worker_accept-Answers w s)
  step-Below resume manager_reassign s =
      Ensures-mono (after_reassign s) _ (Frames.manager_reassign-Reassigns w s)
  step-Below resume worker_execute s =
      Ensures-mono (after_work s) _ (Frames.worker_execute-Works w s)
  step-Below resume qa_review s =
      Ensures-mono (λ t h. ground arith) _ (Frames.qa_review-Reviews w s)
  step-Below resume manager_review_after_qa s =
      Ensures-mono (after_judgement s) _ (Frames.manager_review_after_qa-Judges w s)
  step-Below resume progress_check s =
      Ensures-mono (λ t h. after_check s t) _ (Frames.check_progress-Checks w s)
  step-Below resume ceo_approve s =
      Ensures-mono (after_decision s) _ (Frames.ceo_approve-Decides w s resume)
  step-Below resume ceo_handle_escalation s =
      Ensures-mono (λ t h. tt) _ (Frames.ceo_handle_escalation-Closes s)

-- The run came to an end, or waits for a human, before the limit.
abbrev pub Ends : Outcome → Type 0
Ends (out_of_steps n s sys) = ⊥
Ends (finished s sys) = Unit
Ends (raised e s sys) = Unit
Ends (paused n s sys) = Unit

module _ (waits : Node → Bool) (go : Node → State → System → Outcome) (k : ℕ)
    (ends : (n : Node) (s : State) (sys : System) → bound n s ≤ k → Ends (go n s sys)) where
  arrive-Ends :
      (before t : State) (sys : System) (r : Result Target)
      → Below (suc k) t r
      → Ends (arrive waits go before t sys r)
  unfolding arrive
  arrive-Ends before t sys (err e) h = tt
  arrive-Ends before t sys (ok end) h = tt
  arrive-Ends before t sys (ok (node n)) h = elim (Bool-cases (waits n)) [
    | inl wait ↦ rw wait tt
    | inr go_on ↦ rw go_on (ends n t sys (omega arith))
  ]

  after-Ends :
      (n : Node) (s : State) (r : Result State × System)
      → OnOk (λ t. Below (suc k) t (next n t)) r.0
      → Ends (after waits go n s r)
  unfolding after
  after-Ends n s (ok t, sys) h = arrive-Ends s t sys (next n t) h
  after-Ends n s (err e, sys) h = tt

Below-mono : {j k : ℕ} (t : State) (r : Result Target) → j ≤ k → Below j t r → Below k t r
Below-mono t (err e) le h = tt
Below-mono t (ok end) le h = tt
Below-mono t (ok (node m)) le h = omega arith

bound-pos : (n : Node) (s : State) → 0 < bound n s
bound-pos ceo_dispatch s = omega arith
bound-pos _ s = omega arith

module _ (w : World) (waits : Node → Bool) where
  -- From every node and state, with every world, human answer and set of interrupts: a run with
  -- at least `bound` steps to go never uses them all up.
  pub run-Ends :
      (limit : ℕ) (resume : Option HumanResponse) (n : Node) (s : State) (sys : System)
      → bound n s ≤ limit
      → Ends (run w waits resume limit n s sys)
  unfolding run
  run-Ends zero resume n s sys h = absurd (omega (arith, bound-pos n s))
  run-Ends (suc limit) resume n s sys h =
      after-Ends waits (run w waits none limit) limit (λ m t. run-Ends limit none m t) n s
        (execute w resume n s sys)
        ((Ensures-mono (λ t b. Below-mono t (next n t) h b) _ (step-Below w resume n s)).at sys)
