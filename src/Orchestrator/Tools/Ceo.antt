-- ===== src/Orchestrator/Tools/Ceo.antt =====
-- nexus/orchestrator/tools/ceo_tools.py
use nexus_ai_team.Prelude.{String}
use nexus_ai_team.Prelude.Text.{◌⁀◌, take_text}
use nexus_ai_team.Effects.{pure, lift, ◌>>◌}
use nexus_ai_team.Orchestrator.Permissions.{check_tool_permission}
use nexus_ai_team.Orchestrator.System.{Act}

pub record Contract : Type 0 where
  pub contract_id : String
  pub task_description : String
  pub priority : String
  pub department : String
  pub status : String
  pub issued_by : String

unfoldable pub generate_contract :
    (role task_description priority department contract_id : String) → Act Contract
generate_contract role task_description priority department contract_id = do
  lift (check_tool_permission role "generate_contract")
  pure (record {
    contract_id = contract_id;
    task_description = task_description;
    priority = priority;
    department = department;
    status = "issued";
    issued_by = role;
  })

unfoldable pub write_note : (role note : String) → Act String
write_note role note = do lift (check_tool_permission role "write_note"); pure ("[NOTE] " ⁀ note)

unfoldable pub read_reports : (role report_content : String) → Act String
read_reports role report_content = do
  lift (check_tool_permission role "read_reports")
  pure ("[CEO READ] " ⁀ take_text 200 report_content ⁀ "...")
