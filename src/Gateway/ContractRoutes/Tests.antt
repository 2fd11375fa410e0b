-- ===== src/Gateway/ContractRoutes/Tests.antt =====
-- A contract that is created, run and cancelled.
use nexus_ai_team.Prelude.{◌≡◌, refl, none, some, [], ◌∷◌, arith}
use nexus_ai_team.Prelude.Dict.{lookup}
use nexus_ai_team.Orchestrator.Graph.{ceo_dispatch, no_interrupts, run}
use nexus_ai_team.Orchestrator.Samples.{approving, idle}
use nexus_ai_team.Gateway.ContractRoutes.{
  ContractRequest, ContractInfo, Contracts, is_valid, tracked_info, initial_state, create_contract,
  run_graph_sync, is_over,
}
use nexus_ai_team.Gateway.ContractRoutes.Status.{
  Reports, IsCancelled, RunsAnyway, run_graph_sync-Reports, cancel_contract-RunsAnyway,
}

abbrev sort_request : ContractRequest
sort_request = record {
  task_description = "Sort a list";
  priority = "high";
  department = "IT";
  max_attempts = 3;
  approver_type = "ai";
  approver_id = "ai_ceo";
  cc_list = [];
}

abbrev one_contract : Contracts
one_contract = ("CTR-ABCDEF12", tracked_info) ∷ []

created : (create_contract "abcdef1234" sort_request []).1 ≡ one_contract
unfolding create_contract
created = refl

run_graph_sync-Reports_example :
    (info : ContractInfo) × (lookup "CTR-ABCDEF12" (
        run_graph_sync approving 54 "CTR-ABCDEF12"
          (initial_state "CTR-ABCDEF12" sort_request)
          idle
          one_contract)
      ≡ some info)
    × Reports
        (run approving no_interrupts none 54 ceo_dispatch
          (initial_state "CTR-ABCDEF12" sort_request)
          idle)
        info
unfolding is_valid lookup
run_graph_sync-Reports_example =
    run_graph_sync-Reports approving 54 "CTR-ABCDEF12" sort_request idle one_contract tracked_info
      refl (omega arith) refl

cancel_contract-RunsAnyway_example :
    IsCancelled "CTR-ABCDEF12" one_contract tracked_info
    × RunsAnyway approving 54 "CTR-ABCDEF12"
        (initial_state "CTR-ABCDEF12" sort_request)
        idle
        one_contract
unfolding lookup is_over
cancel_contract-RunsAnyway_example =
    cancel_contract-RunsAnyway approving 54 "CTR-ABCDEF12"
      (initial_state "CTR-ABCDEF12" sort_request) idle one_contract tracked_info refl
      (refl, refl, refl)
