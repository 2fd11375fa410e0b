-- ===== src/Gateway/ContractRoutes/Stream.antt =====
-- What graph.stream reports of a run: the name of each node that returned, in order.
use nexus_ai_team.Prelude.{ℕ, zero, suc, String, Bool, Option, none, List, [], ◌∷◌, if◌then◌else◌}
use nexus_ai_team.Effects.{Result, ok, err}
use nexus_ai_team.Orchestrator.State.{State}
use nexus_ai_team.Orchestrator.System.{World, System}
use nexus_ai_team.Orchestrator.Nodes.Ceo.{HumanResponse}
use nexus_ai_team.Orchestrator.Graph.{
  Node, ceo_dispatch, manager_plan, worker_accept, manager_reassign, worker_execute, qa_review,
  manager_review_after_qa, progress_check, ceo_approve, ceo_handle_escalation, Target, node, end,
  next, execute,
}

abbrev pub node_name : Node → String
node_name ceo_dispatch = "ceo_dispatch"
node_name manager_plan = "manager_plan"
node_name worker_accept = "worker_accept"
node_name manager_reassign = "manager_reassign"
node_name worker_execute = "worker_execute"
node_name qa_review = "qa_review"
node_name manager_review_after_qa = "manager_review_after_qa"
node_name progress_check = "progress_check"
node_name ceo_approve = "ceo_approve"
node_name ceo_handle_escalation = "ceo_handle_escalation"

module _ (waits : Node → Bool) (go : Node → State → System → List String) where
  events_on : Node → State → System → Result Target → List String
  events_on n s sys (err e) = []
  events_on n s sys (ok end) = node_name n ∷ []
  events_on n s sys (ok (node m)) = node_name n ∷ (if waits m then [] else go m s sys)

  events_after : Node → Result State × System → List String
  unfolding events_on
  events_after n (err e, sys) = []
  events_after n (ok s, sys) = events_on n s sys (next n s)

unfoldable pub stream :
    World → (Node → Bool) → Option HumanResponse → ℕ → Node → State → System → List String
unfolding events_after next execute
stream w waits resume zero n s sys = []
stream w waits resume (suc limit) n s sys =
    events_after waits (stream w waits none limit) n (execute w resume n s sys)
