-- ===== src/Orchestrator/Tests.antt =====
-- Concrete runs of the permissions, the model calls and the approvals.
use nexus_ai_team.Prelude.{◌≡◌, refl, String, true, none, some, List, [], ◌∷◌, ◌↔◌, inr}
use nexus_ai_team.Prelude.Text.{strip, nonempty}
use nexus_ai_team.Prelude.Dict.{lookup}
use nexus_ai_team.Orchestrator.Permissions.{check_mail_permission}
use nexus_ai_team.Orchestrator.Permissions.Chain.{MayWrite, check_mail_permission_iff}
use nexus_ai_team.Orchestrator.Permissions.Exclusive.{May, exclusive_tools}
use nexus_ai_team.Orchestrator.Samples.{flaky, idle, empty_store, first_request}
use nexus_ai_team.Orchestrator.Tools.Llm.{llm_call, llm_call_with}
use nexus_ai_team.Orchestrator.Tools.Llm.Retries.{Returns, llm_call_with-Returns}
use nexus_ai_team.Orchestrator.Tools.Llm.Cost.{Costs, llm_call_cost}
use nexus_ai_team.Orchestrator.Approval.{
  ApprovalRequest, pending, rejected, approve, reject, fresh_request, create, reject_in, human,
}
use nexus_ai_team.Orchestrator.Approval.Lifecycle.{IsError, decided_once}
use nexus_ai_team.Orchestrator.Approval.Pending.{
  Operation, creates, rejects, IsIndexed, pending_unique,
}

check_mail_permission_iff_example :
    (check_mail_permission "worker" "ceo" ≡ none) ↔ MayWrite "worker" "ceo"
check_mail_permission_iff_example = check_mail_permission_iff "worker" "ceo"

abbrev worker_role : String
worker_role = "worker"

exclusive_tools_example :
    (May worker_role "generate_contract" → worker_role ≡ "ceo")
    × (May worker_role "assign_worker" → worker_role ≡ "manager")
    × (May worker_role "write_code" → worker_role ≡ "worker")
    × (May worker_role "git_commit" → worker_role ≡ "worker")
    × (May worker_role "write_verdict" → worker_role ≡ "qa")
exclusive_tools_example = exclusive_tools worker_role

llm_call_with-Returns_example :
    Returns (some "done") (llm_call_with flaky "qa" "Review." "x = 1" 512 3 120 idle).0
unfolding strip
llm_call_with-Returns_example = llm_call_with-Returns flaky "qa" "Review." "x = 1" 512 3 120 idle

llm_call_cost_example : Costs 4 6 idle (llm_call flaky "qa" "Review." "x = 1" 512 idle).1
llm_call_cost_example = llm_call_cost flaky "qa" "Review." "x = 1" 512 idle

abbrev settled_request : ApprovalRequest
settled_request = record first_request {
  status = rejected;
  rejection_notes = "too slow";
  resolved_at = some 9;
  resolved_by = "alice";
}

decided_once_example :
    (first_request.status ≡ pending)
    × IsError (approve "bob" 12 settled_request)
    × IsError (reject "bob" "again" 12 settled_request)
    × (rejected ≡ rejected
        → (nonempty (strip " too slow ") ≡ true) × ("too slow" ≡ strip " too slow "))
unfolding reject strip fresh_request
decided_once_example =
    decided_once first_request settled_request "alice" " too slow " "bob" "again" 9 12 (inr refl)

abbrev second_request : ApprovalRequest
second_request = fresh_request "12345678" "CTR-1" "Approval" "Summary" human "alice" [] 20

abbrev asked_twice : List Operation
asked_twice =
    creates first_request
    ∷ rejects "APR-ABCDEF12" "alice" "too slow" 9
    ∷ creates second_request
    ∷ []

empty-IsIndexed : IsIndexed empty_store
unfolding lookup
empty-IsIndexed = record { keyed = λ id r h. cc; named = λ id r h. cc; indexed = λ id r h p. cc }

abbrev latest_id : String
latest_id = "APR-12345678"

pending_unique_example : latest_id ≡ latest_id
unfolding create reject_in fresh_request strip
pending_unique_example =
    pending_unique asked_twice empty_store latest_id latest_id second_request second_request
      (refl, (tt, (refl, tt))) empty-IsIndexed refl refl refl refl refl
