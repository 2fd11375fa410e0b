-- ===== src/Orchestrator/Approval.antt =====
-- nexus/orchestrator/approval.py: approval requests and their store. A request that is handed out
-- is the store's own object, so a method on it is an operation on the store at its id.
-- The table of the database holds at most one row for an id, as its primary key demands.
pub mod Lifecycle
pub mod Pending
pub mod Decisions
use nexus_ai_team.Prelude.{
  ℕ, ◌≡◌, refl, String, Bool, true, false, not, Option, none, some, List, [], ◌∷◌, ◌==◌, ◌&&◌,
  if◌then◌else◌,
}
use nexus_ai_team.Prelude.Text.{◌⁀◌, strip, nonempty, take_text, upper}
use nexus_ai_team.Prelude.Dict.{Dict, lookup, assign, values}
use nexus_ai_team.Effects.{Result, ok, err, value_error, runtime_error}

pub data ApprovalStatus : Type 0 where
  pending approved rejected : ApprovalStatus

pub data ApproverType : Type 0 where
  ai human : ApproverType

abbrev pub status_value : ApprovalStatus → String
status_value pending = "pending"
status_value approved = "approved"
status_value rejected = "rejected"

abbrev pub is_pending : ApprovalStatus → Bool
is_pending pending = true
is_pending _ = false

pub record ApprovalRequest : Type 0 where
  pub request_id : String
  pub contract_id : String
  pub title : String
  pub summary : String
  pub approver_type : ApproverType
  pub approver_id : String
  pub cc_list : List String
  pub status : ApprovalStatus
  pub rejection_notes : String
  pub created_at : ℕ
  pub resolved_at : Option ℕ
  pub resolved_by : String

already : ApprovalRequest → String
already r = "审批 " ⁀ r.request_id ⁀ " 已经是 " ⁀ status_value r.status ⁀ "，不能重复操作"

-- ApprovalRequest.approve, without the write to the database.
unfoldable pub approve : String → ℕ → ApprovalRequest → Result ApprovalRequest
unfolding already
approve by now r =
    if not (is_pending r.status)
    then err (value_error (already r))
    else ok (record r { status = approved; resolved_at = some now; resolved_by = by })

-- ApprovalRequest.reject, without the write to the database.
unfoldable pub reject : String → String → ℕ → ApprovalRequest → Result ApprovalRequest
unfolding already
reject by notes now r =
    if not (is_pending r.status)
    then err (value_error (already r))
    else let stripped = strip notes in
      if not (nonempty stripped)
      then err (value_error "REJECTED 必须写备注（rejection_notes 不能为空）")
      else ok (record r {
        status = rejected;
        rejection_notes = stripped;
        resolved_at = some now;
        resolved_by = by;
      })

-- A row of `approval_requests`: the columns that a request is stored in.
pub record Row : Type 0 where
  pub contract_id : String
  pub title : String
  pub summary : String
  pub approver_type : ApproverType
  pub approver_id : String
  pub cc_list : List String
  pub status : ApprovalStatus
  pub rejection_notes : String
  pub created_at : ℕ
  pub resolved_at : Option ℕ

pub record ApprovalStore : Type 0 where
  pub store : Dict ApprovalRequest
  pub by_contract : Dict String
  pub rows : Dict Row

-- What `create` inserts.
new_row : ApprovalRequest → Row
new_row r = record {
  contract_id = r.contract_id;
  title = r.title;
  summary = r.summary;
  approver_type = r.approver_type;
  approver_id = r.approver_id;
  cc_list = r.cc_list;
  status = r.status;
  rejection_notes = r.rejection_notes;
  created_at = r.created_at;
  resolved_at = none;
}

-- UPDATE … WHERE request_id = ?
update_row : ApprovalRequest → Option Row → Dict Row → Dict Row
update_row r none rows = rows
update_row r (some row) rows =
    assign r.request_id
      (record row {
        status = r.status;
        rejection_notes = r.rejection_notes;
        resolved_at = r.resolved_at;
      })
      rows

unfoldable pub persist : ApprovalRequest → Dict Row → Dict Row
unfolding update_row lookup assign
persist r rows = update_row r (lookup r.request_id rows) rows

-- An INSERT under an id that is taken fails, and the failure is only logged.
insert_row : ApprovalRequest → Option Row → Dict Row → Dict Row
insert_row r none rows = assign r.request_id (new_row r) rows
insert_row r (some row) rows = rows

-- The method's change of a request of the store, with its write to the database.
settle : Result ApprovalRequest → ApprovalStore → Result ApprovalRequest × ApprovalStore
settle (err e) st = (err e, st)
settle (ok r) st =
    (ok r, record st { store = assign r.request_id r st.store; rows = persist r st.rows })

with_request :
    (ApprovalRequest → Result ApprovalRequest)
    → Option ApprovalRequest
    → ApprovalStore
    → Result ApprovalRequest × ApprovalStore
with_request f none st = (err (runtime_error "no such request"), st)
with_request f (some r) st = settle (f r) st

unfoldable pub approve_in :
    String → String → ℕ → ApprovalStore → Result ApprovalRequest × ApprovalStore
unfolding with_request settle persist approve lookup assign
approve_in id by now st = with_request (approve by now) (lookup id st.store) st

unfoldable pub reject_in :
    String → String → String → ℕ → ApprovalStore → Result ApprovalRequest × ApprovalStore
unfolding with_request settle persist reject lookup assign
reject_in id by notes now st = with_request (reject by notes now) (lookup id st.store) st

open_id : String → Option ApprovalRequest → Option String
open_id id none = none
open_id id (some r) = if is_pending r.status then some id else none

-- The pending request that `_by_contract` names for the contract, if there is one.
pending_id : Option String → Dict ApprovalRequest → Option String
pending_id none store = none
pending_id (some id) store = if nonempty id then open_id id (lookup id store) else none

-- ApprovalStore.create, once no request is pending.
add_request : ApprovalRequest → ApprovalStore → ApprovalStore
add_request r st = record {
  store = assign r.request_id r st.store;
  by_contract = assign r.contract_id r.request_id st.by_contract;
  rows = insert_row r (lookup r.request_id st.rows) st.rows;
}

create_unless :
    ApprovalRequest → Option String → ApprovalStore → Result ApprovalRequest × ApprovalStore
create_unless r (some existing) st =
    (err (value_error ("合同 " ⁀ r.contract_id ⁀ " 已有 pending 审批 " ⁀ existing ⁀ "，不能重复发起")), st)
create_unless r none st = (ok r, add_request r st)

-- `r` is the fresh request that `create` builds: pending, with no notes and not resolved.
unfoldable pub create : ApprovalRequest → ApprovalStore → Result ApprovalRequest × ApprovalStore
unfolding create_unless add_request insert_row new_row pending_id open_id lookup assign
create r st = create_unless r (pending_id (lookup r.contract_id st.by_contract) st.store) st

-- The request that `create` builds from its arguments; `hex` is uuid4().hex.
unfoldable pub fresh_request :
    (hex contract_id title summary : String)
    → ApproverType
    → (approver_id : String) → (cc_list : List String) → (now : ℕ) → ApprovalRequest
unfolding take_text upper
fresh_request hex contract_id title summary kind approver_id cc_list now = record {
  request_id = "APR-" ⁀ upper (take_text 8 hex);
  contract_id = contract_id;
  title = title;
  summary = summary;
  approver_type = kind;
  approver_id = approver_id;
  cc_list = cc_list;
  status = pending;
  rejection_notes = "";
  created_at = now;
  resolved_at = none;
  resolved_by = "";
}

-- ApprovalStore.get and get_by_contract
unfoldable pub get : String → ApprovalStore → Option ApprovalRequest
unfolding lookup
get id st = lookup id st.store

get_named : Option String → ApprovalStore → Option ApprovalRequest
unfolding get
get_named none st = none
get_named (some id) st = if nonempty id then get id st else none

unfoldable pub get_by_contract : String → ApprovalStore → Option ApprovalRequest
unfolding get_named lookup
get_by_contract contract st = get_named (lookup contract st.by_contract) st

pending_only : List ApprovalRequest → List ApprovalRequest
pending_only [] = []
pending_only (r ∷ rs) = let rest = pending_only rs in if is_pending r.status then r ∷ rest else rest

unfoldable pub get_pending : ApprovalStore → List ApprovalRequest
unfolding pending_only values
get_pending st = pending_only (values st.store)

-- A row that is read back. The table has no column for `resolved_by`.
of_row : String → Row → ApprovalRequest
of_row id row = record {
  request_id = id;
  contract_id = row.contract_id;
  title = row.title;
  summary = row.summary;
  approver_type = row.approver_type;
  approver_id = row.approver_id;
  cc_list = row.cc_list;
  status = row.status;
  rejection_notes = row.rejection_notes;
  created_at = row.created_at;
  resolved_at = row.resolved_at;
  resolved_by = "";
}

load_rows : Dict Row → ApprovalStore → ApprovalStore
load_rows [] st = st
load_rows ((id, row) ∷ rest) st = load_rows rest (record st {
  store = assign id (of_row id row) st.store;
  by_contract = assign row.contract_id id st.by_contract;
})

-- ApprovalStore(): the maps are filled from the rows of the table.
unfoldable pub load_from_db : Dict Row → ApprovalStore
unfolding load_rows of_row assign
load_from_db rows = load_rows rows (record { store = []; by_contract = []; rows = rows })
