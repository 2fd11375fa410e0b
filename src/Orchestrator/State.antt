-- ===== src/Orchestrator/State.antt =====
-- nexus/orchestrator/state.py: the state that the nodes of the graph share. A key that the
-- gateway's first state lacks and a node adds is an optional field.
use nexus_ai_team.Prelude.{ℕ, String, Bool, Option, List}

abbrev pub max_retries : ℕ
max_retries = 3

pub record MailMessage : Type 0 where
  pub from_role : String
  pub to_role : String
  pub type : String
  pub subject : String
  pub body : String

pub record MailRejection : Type 0 where
  pub attempted_from : String
  pub attempted_to : String
  pub msg_type : String
  pub reason : String
  pub timestamp : String

pub record State : Type 0 where
  pub contract_id : String
  pub task_description : String
  pub priority : String
  pub department : String
  pub current_phase : String
  pub worker_output : String
  pub worker_raw_code : Option String
  pub qa_verdict : String
  pub qa_report : String
  pub attempt_count : ℕ
  pub max_attempts : ℕ
  pub subtasks : List String
  pub manager_instruction : String
  pub mail_log : List MailMessage
  pub mail_rejections : List MailRejection
  pub final_result : String
  pub ceo_approved : Bool
  pub escalated : Bool
  pub contract_accepted : Option Bool
  pub reject_reason : String
  pub acceptance_deadline : String
  pub check_after_seconds : Option ℕ
  pub check_count : ℕ
  pub max_checks : ℕ
  pub last_check_time : String
  pub check_result : String
  pub approval_request_id : String
  pub approval_status : String
  pub approval_rejection_notes : String
  pub approver_type : String
  pub approver_id : String
  pub approval_cc_list : List String
  pub ceo_rejection_feedback : Option String
