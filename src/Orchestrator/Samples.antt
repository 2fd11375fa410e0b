-- ===== src/Orchestrator/Samples.antt =====
-- Concrete inputs for the tests: a model server with fixed answers, a contract and an empty store.
use nexus_ai_team.Prelude.{
  ℕ, zero, suc, ◌+◌, ◌*◌, String, false, ◌==◌, Option, none, [], if◌then◌else◌,
}
use nexus_ai_team.Prelude.Text.{◌⁀◌, decimal}
use nexus_ai_team.Orchestrator.State.{State}
use nexus_ai_team.Orchestrator.Approval.{ApprovalStore, ApprovalRequest, fresh_request, human}
use nexus_ai_team.Orchestrator.System.{
  World, System, Endpoint, Request, Reply, content, no_content, failure,
}
use nexus_ai_team.Orchestrator.Nodes.Ceo.{approval_system_prompt}

abbrev pub sample_endpoint : String → Endpoint
sample_endpoint name = record { model = name; api_base = "http://127.0.0.1:4000" }

-- `decision` is the CEO's answer; all other questions are answered with a PASS.
abbrev pub answers : (decision : String) → ℕ → Request → Reply
answers decision n r =
    if r.system_prompt == approval_system_prompt
    then content decision
    else content "PASS\n- one line"

-- The primary endpoint does not answer, the fallback answers its second call.
abbrev pub flaky_answers : ℕ → Request → Reply
flaky_answers zero r = failure "connection refused"
flaky_answers (suc zero) r = no_content
flaky_answers (suc (suc n)) r = content " done "

abbrev pub world_of : (ℕ → Request → Reply) → World
world_of complete = record {
  primary = sample_endpoint "primary";
  fallback = sample_endpoint "fallback";
  complete = complete;
  clock = λ n. 1000000 * n;
  iso = λ t. "t" ⁀ decimal t;
  uuid_hex = λ n. "abcdef" ⁀ decimal (10 + n);
  hash = λ text. 7;
  repr = λ text. "'" ⁀ text ⁀ "'";
}

abbrev pub approving : World
approving = world_of (answers "APPROVE")

abbrev pub refusing : World
refusing = world_of (answers "REJECT\nNot what was asked for")

abbrev pub flaky : World
flaky = world_of flaky_answers

abbrev pub empty_store : ApprovalStore
empty_store = record { store = []; by_contract = []; rows = [] }

abbrev pub idle : System
idle = record { completions = 0; clock_reads = 0; ids = 0; slept = 0; approvals = empty_store }

abbrev pub contract_of : (contract_id approver_type : String) → Option ℕ → State
contract_of contract_id approver_type check_after_seconds = record {
  contract_id = contract_id;
  task_description = "Sort a list";
  priority = "high";
  department = "engineering";
  current_phase = "ceo_dispatch";
  worker_output = "";
  worker_raw_code = none;
  qa_verdict = "";
  qa_report = "";
  attempt_count = 0;
  max_attempts = 2;
  subtasks = [];
  manager_instruction = "";
  mail_log = [];
  mail_rejections = [];
  final_result = "";
  ceo_approved = false;
  escalated = false;
  contract_accepted = none;
  reject_reason = "";
  acceptance_deadline = "";
  check_after_seconds = check_after_seconds;
  check_count = 0;
  max_checks = 3;
  last_check_time = "";
  check_result = "";
  approval_request_id = "";
  approval_status = "";
  approval_rejection_notes = "";
  approver_type = approver_type;
  approver_id = "alice";
  approval_cc_list = [];
  ceo_rejection_feedback = none;
}

abbrev pub plain : State
plain = contract_of "CTR-1" "ai" none

-- In front of the approval: QA has passed the first attempt.
abbrev pub passed : (approver_type : String) → State
passed approver_type = record (contract_of "CTR-1" approver_type none) {
  current_phase = "manager_review";
  qa_verdict = "PASS";
  attempt_count = 1;
}

abbrev pub first_request : ApprovalRequest
first_request = fresh_request "abcdef12" "CTR-1" "Approval" "Summary" human "alice" [] 5
