-- ===== src/Orchestrator/Graph.antt =====
-- nexus/orchestrator/graph.py: the nodes, the routing functions and the edges, and the run of the
-- compiled graph: one node to a step, until an edge leads to END, a node raises, or the recursion
-- limit that the caller gives is used up. A routing function returns a label, which the edge's
-- path map takes to a node; a label that is not in the map is a KeyError.
pub mod Routes
pub mod Frames
pub mod Termination
pub mod Induction
pub mod Completion
pub mod Attempts
pub mod Mails
pub mod Phases
pub mod Posts
pub mod Deliveries
pub mod Refusal
pub mod Checked
pub mod Rework
pub mod Interrupts
mod Tests
use nexus_ai_team.Prelude.{
  ℕ, zero, suc, ltb, String, Bool, true, false, not, ◌==◌, ◌||◌, Option, none, some, List, [], ◌∷◌,
  if◌then◌else◌,
}
use nexus_ai_team.Prelude.Dict.{Dict, lookup}
use nexus_ai_team.Effects.{Error, key_error, Result, ok, err}
use nexus_ai_team.Orchestrator.State.{State}
use nexus_ai_team.Orchestrator.System.{World, System, Act}
use nexus_ai_team.Orchestrator.Nodes.Ceo
use nexus_ai_team.Orchestrator.Nodes.Ceo.{HumanResponse}
use nexus_ai_team.Orchestrator.Nodes.Manager
use nexus_ai_team.Orchestrator.Nodes.Accept
use nexus_ai_team.Orchestrator.Nodes.Reassign
use nexus_ai_team.Orchestrator.Nodes.Worker
use nexus_ai_team.Orchestrator.Nodes.Qa
use nexus_ai_team.Orchestrator.Nodes.Progress

pub data Node : Type 0 where
  ceo_dispatch manager_plan worker_accept manager_reassign worker_execute qa_review : Node
  manager_review_after_qa progress_check ceo_approve ceo_handle_escalation : Node

pub data Target : Type 0 where
  node : Node → Target
  end : Target

-- Only a clear acceptance starts the work.
unfoldable pub route_after_worker_accept : Option Bool → String
route_after_worker_accept (some true) = "worker_execute"
route_after_worker_accept (some false) = "manager_reassign"
route_after_worker_accept none = "manager_reassign"

unfoldable pub route_after_manager_reassign : State → String
route_after_manager_reassign s = if s.escalated then "ceo_handle_escalation" else "worker_accept"

unfoldable pub route_after_worker_execute : Option ℕ → String
route_after_worker_execute (some seconds) = "progress_check"
route_after_worker_execute none = "qa_review"

unfoldable pub route_after_qa_review : State → String
route_after_qa_review s =
    if s.qa_verdict == "PASS"
    then "ceo_approve"
    else if ltb s.attempt_count s.max_attempts
    then "worker_execute"
    else "ceo_handle_escalation"

unfoldable pub route_after_progress_check : State → String
route_after_progress_check s =
    if s.escalated || s.check_result == "stuck" then "ceo_handle_escalation" else "qa_review"

unfoldable pub route_after_ceo_approve : State → String
route_after_ceo_approve s =
    if s.ceo_approved
    then "__end__"
    else if ltb s.attempt_count s.max_attempts
    then "worker_execute"
    else "__end__"

found : String → Option Target → Result Target
found label none = err (key_error label)
found label (some t) = ok t

-- The target of a label in the path map of a conditional edge.
follow : String → Dict Target → Result Target
unfolding found lookup
follow label path_map = found label (lookup label path_map)

-- The edges that `build_graph` and `build_graph_with_interrupts` add.
unfoldable pub next : Node → State → Result Target
unfolding follow route_after_worker_accept route_after_manager_reassign route_after_worker_execute
    route_after_qa_review route_after_progress_check route_after_ceo_approve
next ceo_dispatch s = ok (node manager_plan)
next manager_plan s = ok (node worker_accept)
next worker_accept s =
    follow (route_after_worker_accept s.contract_accepted)
      (("worker_execute", node worker_execute) ∷ ("manager_reassign", node manager_reassign) ∷ [])
next manager_reassign s = follow (route_after_manager_reassign s) (
    ("worker_accept", node worker_accept)
    ∷ ("ceo_handle_escalation", node ceo_handle_escalation)
    ∷ [])
next worker_execute s =
    follow (route_after_worker_execute s.check_after_seconds)
      (("qa_review", node qa_review) ∷ ("progress_check", node progress_check) ∷ [])
next qa_review s = ok (node manager_review_after_qa)
next manager_review_after_qa s = follow (route_after_qa_review s) (
    ("ceo_approve", node ceo_approve)
    ∷ ("worker_execute", node worker_execute)
    ∷ ("ceo_handle_escalation", node ceo_handle_escalation)
    ∷ [])
next progress_check s = follow (route_after_progress_check s) (
    ("worker_execute", node worker_execute)
    ∷ ("ceo_handle_escalation", node ceo_handle_escalation)
    ∷ [])
next ceo_approve s =
    follow (route_after_ceo_approve s)
      (("__end__", end) ∷ ("worker_execute", node worker_execute) ∷ [])
next ceo_handle_escalation s = ok end

pub data Outcome : Type 0 where
  finished : State → System → Outcome
  -- the state before the node that raised
  raised : Error → State → System → Outcome
  -- the node in front of which the graph waits
  paused : Node → State → System → Outcome
  out_of_steps : Node → State → System → Outcome

-- `interrupt_before` of the two ways to compile the graph.
unfoldable pub no_interrupts : Node → Bool
no_interrupts ceo_approve = false
no_interrupts _ = false

unfoldable pub human_interrupts : Node → Bool
human_interrupts ceo_approve = true
human_interrupts ceo_handle_escalation = true
human_interrupts _ = false

-- `resume` is the answer that the interrupt of the node returns.
unfoldable pub execute : World → Option HumanResponse → Node → State → Act State
execute w resume ceo_dispatch s = Ceo.ceo_dispatch w s
execute w resume manager_plan s = Manager.manager_plan w s
execute w resume worker_accept s = Accept.worker_accept w s
execute w resume manager_reassign s = Reassign.manager_reassign w s
execute w resume worker_execute s = Worker.worker_execute w s
execute w resume qa_review s = Qa.qa_review w s
execute w resume manager_review_after_qa s = Manager.manager_review_after_qa w s
execute w resume progress_check s = Progress.check_progress w s
execute w resume ceo_approve s = Ceo.ceo_approve w s resume
execute w resume ceo_handle_escalation s = Ceo.ceo_handle_escalation s

-- What follows a node, given what runs from a node on.
arrive :
    (Node → Bool)
    → (Node → State → System → Outcome)
    → State
    → State
    → System
    → Result Target
    → Outcome
arrive waits go before s sys (err e) = raised e before sys
arrive waits go before s sys (ok end) = finished s sys
arrive waits go before s sys (ok (node n)) = if waits n then paused n s sys else go n s sys

after :
    (Node → Bool)
    → (Node → State → System → Outcome)
    → Node
    → State
    → Result State × System
    → Outcome
unfolding arrive
after waits go n before (err e, sys) = raised e before sys
after waits go n before (ok s, sys) = arrive waits go before s sys (next n s)

-- The run from a node on. A resume value is for the first node only.
unfoldable pub run :
    World → (Node → Bool) → Option HumanResponse → ℕ → Node → State → System → Outcome
unfolding after next
run w waits resume zero n s sys = out_of_steps n s sys
run w waits resume (suc limit) n s sys =
    after waits (run w waits none limit) n s (execute w resume n s sys)
