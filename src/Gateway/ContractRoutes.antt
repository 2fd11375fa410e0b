-- ===== src/Gateway/ContractRoutes.antt =====
-- gateway/orchestrator_routes.py: contracts are created over HTTP, run in the background and
-- polled. `_contract_status` is the argument of the functions that read and write it; what the
-- checkpointer has saved of a contract is an argument where the code asks for it.
pub mod Stream
pub mod Status
mod Tests
use nexus_ai_team.Prelude.{
  ℕ, leb, String, Bool, true, false, not, ◌==◌, ◌&&◌, ◌||◌, Option, none, some, List, [], ◌∷◌, ◌++◌,
  is_empty, if◌then◌else◌,
}
use nexus_ai_team.Prelude.Text.{◌⁀◌, take_text, upper, len_text, nonempty}
use nexus_ai_team.Prelude.Dict.{Dict, lookup, assign}
use nexus_ai_team.Effects.{Error, graph_interrupt}
use nexus_ai_team.Orchestrator.State.{State}
use nexus_ai_team.Orchestrator.System.{World, System}
use nexus_ai_team.Orchestrator.Graph.{
  ceo_dispatch, Outcome, finished, raised, paused, out_of_steps, no_interrupts, run,
}
use nexus_ai_team.Gateway.ContractRoutes.Stream.{stream}

pub record ContractRequest : Type 0 where
  pub task_description : String
  pub priority : String
  pub department : String
  pub max_attempts : ℕ
  pub approver_type : String
  pub approver_id : String
  pub cc_list : List String

-- The constraints that the fields of the request model declare.
unfoldable pub is_valid : ContractRequest → Bool
unfolding len_text
is_valid req =
    (leb 1 (len_text req.task_description) && leb (len_text req.task_description) 10000)
    && (req.priority == "low"
        || req.priority == "medium"
        || req.priority == "high"
        || req.priority == "critical")
    && (leb 1 req.max_attempts && leb req.max_attempts 10)
    && (req.approver_type == "ai" || req.approver_type == "human")

-- What a failed run leaves as its error: an exception of a node, or LangGraph's that the recursion
-- limit is reached.
pub data Failure : Type 0 where
  node_failed : Error → Failure
  too_many_steps : Failure

pub record ContractInfo : Type 0 where
  pub status : String
  pub current_phase : String
  pub steps : List String
  pub error : Option Failure
  pub final_state : Option State

abbrev pub Contracts : Type 0
Contracts = Dict ContractInfo

unfoldable pub new_contract_id : (hex : String) → String
unfolding take_text upper
new_contract_id hex = "CTR-" ⁀ upper (take_text 8 hex)

abbrev pub initial_state : String → ContractRequest → State
initial_state contract_id req = record {
  contract_id = contract_id;
  task_description = req.task_description;
  priority = req.priority;
  department = req.department;
  current_phase = "ceo_dispatch";
  worker_output = "";
  worker_raw_code = none;
  qa_verdict = "";
  qa_report = "";
  attempt_count = 0;
  max_attempts = req.max_attempts;
  subtasks = [];
  manager_instruction = "";
  mail_log = [];
  mail_rejections = [];
  final_result = "";
  ceo_approved = false;
  escalated = false;
  contract_accepted = none;
  reject_reason = "";
  acceptance_deadline = "";
  check_after_seconds = none;
  check_count = 0;
  max_checks = 3;
  last_check_time = "";
  check_result = "";
  approval_request_id = "";
  approval_status = "";
  approval_rejection_notes = "";
  approver_type = req.approver_type;
  approver_id = req.approver_id;
  approval_cc_list = req.cc_list;
  ceo_rejection_feedback = none;
}

abbrev pub tracked_info : ContractInfo
tracked_info = record {
  status = "queued";
  current_phase = "ceo_dispatch";
  steps = [];
  error = none;
  final_state = none;
}

-- The contract's id and first state, for a request that is valid; the run is scheduled.
unfoldable pub create_contract :
    (hex : String) → ContractRequest → Contracts → (String × State) × Contracts
unfolding new_contract_id assign
create_contract hex req contracts = (
  (new_contract_id hex, initial_state (new_contract_id hex) req),
  assign (new_contract_id hex) tracked_info contracts,
)

update_found : String → (ContractInfo → ContractInfo) → Option ContractInfo → Contracts → Contracts
update_found contract_id f none contracts = contracts
update_found contract_id f (some info) contracts = assign contract_id (f info) contracts

-- _contract_status[contract_id].update(…); an entry is never removed.
unfoldable pub update : String → (ContractInfo → ContractInfo) → Contracts → Contracts
unfolding update_found lookup assign
update contract_id f contracts = update_found contract_id f (lookup contract_id contracts) contracts

abbrev pub set_status : String → ContractInfo → ContractInfo
set_status status info = record info { status = status }

-- One event of the stream.
abbrev pub add_step : String → ContractInfo → ContractInfo
add_step node_name info = record info {
  current_phase = node_name;
  steps = info.steps ++ (node_name ∷ []);
}

add_steps : List String → ContractInfo → ContractInfo
add_steps [] info = info
add_steps (name ∷ names) info = add_steps names (add_step name info)

unfoldable pub status_of : State → String
status_of result =
    if result.ceo_approved
    then "completed"
    else if result.escalated
    then "escalated"
    else "in_progress"

conclude : State → ContractInfo → ContractInfo
unfolding status_of
conclude result info = record info {
  status = status_of result;
  current_phase = result.current_phase;
  final_state = some result;
}

fail : Failure → ContractInfo → ContractInfo
fail failure info = record info { status = "error"; error = some failure }

-- An interrupt ends the stream with an event of its own, and the state is the one before the node.
after_error : Error → State → ContractInfo → ContractInfo
unfolding conclude fail
after_error (graph_interrupt request_id) before info =
    conclude before (add_step "__interrupt__" info)
after_error e before info = fail (node_failed e) info

after_run : Outcome → ContractInfo → ContractInfo
unfolding after_error
after_run (finished result sys) info = conclude result info
after_run (raised e before sys) info = after_error e before info
after_run (paused n before sys) info = conclude before (add_step "__interrupt__" info)
after_run (out_of_steps n before sys) info = fail too_many_steps info

-- _run_graph_sync; `limit` is the recursion limit.
unfoldable pub run_graph_sync :
    World → (limit : ℕ) → String → State → System → Contracts → Contracts
unfolding after_run add_steps update
run_graph_sync w limit contract_id state sys contracts =
    update contract_id
      (λ info. after_run (run w no_interrupts none limit ceo_dispatch state sys) (
        add_steps (stream w no_interrupts none limit ceo_dispatch state sys)
          (set_status "running" info)))
      contracts

is_over : String → Bool
is_over status = status == "completed" || status == "error" || status == "cancelled"

cancel_found : String → Option ContractInfo → Contracts → ℕ × Contracts
unfolding is_over update
cancel_found contract_id none contracts = (404, contracts)
cancel_found contract_id (some info) contracts =
    if is_over info.status
    then (200, contracts)
    else (200, update contract_id (set_status "cancelled") contracts)

unfoldable pub cancel_contract : String → Contracts → ℕ × Contracts
unfolding cancel_found lookup
cancel_contract contract_id contracts =
    cancel_found contract_id (lookup contract_id contracts) contracts

-- The entry that a list of contracts shows.
pub record Listed : Type 0 where
  pub contract_id : String
  pub status : String
  pub current_phase : String

listed_info : Contracts → List Listed
listed_info [] = []
listed_info ((contract_id, info) ∷ rest) =
    (record { contract_id = contract_id; status = info.status; current_phase = info.current_phase })
    ∷ listed_info rest

is_tracked : Option ContractInfo → Bool
is_tracked none = false
is_tracked (some info) = true

-- The saved contracts that are not tracked.
listed_saved : Contracts → List (String × State) → List Listed
unfolding is_tracked lookup status_of
listed_saved contracts [] = []
listed_saved contracts ((thread_id, values) ∷ rest) =
    let others = listed_saved contracts rest in
    if nonempty thread_id && not (is_tracked (lookup thread_id contracts))
    then (record {
      contract_id = thread_id;
      status = status_of values;
      current_phase = values.current_phase;
    })
      ∷ others
    else others

unfoldable pub list_contracts : Contracts → (saved : List (String × State)) → List Listed
unfolding listed_info listed_saved
list_contracts contracts saved = listed_info contracts ++ listed_saved contracts saved

-- The status, the steps and the error that a poll of one contract shows; 404 is `none`. The other
-- fields of the answer are copied from `saved`.
pub record Polled : Type 0 where
  pub status : String
  pub steps : List String
  pub error : Option Failure
  pub saved : Option State

poll : Option State → Option ContractInfo → Option Polled
unfolding status_of
poll none none = none
poll saved (some info) =
    some (record { status = info.status; steps = info.steps; error = info.error; saved = saved })
poll (some values) none =
    some (record { status = status_of values; steps = []; error = none; saved = some values })

unfoldable pub get_contract_status : (saved : Option State) → String → Contracts → Option Polled
unfolding poll lookup
get_contract_status saved contract_id contracts = poll saved (lookup contract_id contracts)
