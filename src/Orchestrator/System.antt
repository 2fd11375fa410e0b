-- ===== src/Orchestrator/System.antt =====
-- What the nodes use of the world outside: the model server that litellm calls, the clock, random
-- ids and the string hash. Each answer may differ from call to call, so it is asked for by the
-- number of the call. `System` counts the calls and holds the approval store of the process.
use nexus_ai_team.Prelude.{ℕ, suc, ◌+◌, String}
use nexus_ai_team.Effects.{Result, ok, Exec}
use nexus_ai_team.Orchestrator.Approval.{ApprovalRequest, ApprovalStore}

pub record Endpoint : Type 0 where
  pub model : String
  pub api_base : String

pub record Request : Type 0 where
  pub endpoint : Endpoint
  pub system_prompt : String
  pub user_prompt : String
  pub max_tokens : ℕ
  pub timeout : ℕ

-- What litellm.completion brings: the message's content, which may be missing, or an exception.
pub data Reply : Type 0 where
  content : String → Reply
  no_content : Reply
  failure : String → Reply

pub record World : Type 0 where
  pub primary : Endpoint
  pub fallback : Endpoint
  pub complete : ℕ → Request → Reply
  -- the clock in microseconds, and `isoformat` of a time
  pub clock : ℕ → ℕ
  pub iso : ℕ → String
  pub uuid_hex : ℕ → String
  pub hash : String → ℕ
  -- repr of a text
  pub repr : String → String

pub record System : Type 0 where
  pub completions : ℕ
  pub clock_reads : ℕ
  pub ids : ℕ
  pub slept : ℕ
  pub approvals : ApprovalStore

abbrev pub Act : Type 0 → Type 0
Act A = Exec System A

module _ (w : World) where
  unfoldable pub now : Act ℕ
  now s = (ok (w.clock s.clock_reads), record s { clock_reads = suc s.clock_reads })

  unfoldable pub new_id : Act String
  new_id s = (ok (w.uuid_hex s.ids), record s { ids = suc s.ids })

  unfoldable pub completion : Request → Act Reply
  completion r s = (ok (w.complete s.completions r), record s { completions = suc s.completions })

unfoldable pub sleep : ℕ → Act (Unit {0})
sleep n s = (ok tt, record s { slept = s.slept + n })

put_store : Result ApprovalRequest × ApprovalStore → System → Result ApprovalRequest × System
put_store (r, st) s = (r, record s { approvals = st })

-- An operation on the approval store.
unfoldable pub on_approvals :
    (ApprovalStore → Result ApprovalRequest × ApprovalStore) → Act ApprovalRequest
unfolding put_store
on_approvals f s = put_store (f s.approvals) s
