-- ===== src/Gateway/ApprovalWebhook.antt =====
-- gateway/approval_webhook.py: a human's decision arrives as an update of a Telegram bot. The bot's
-- messages are left out but for the answer to a click; the start of the graph's run is an entry of
-- `resumed`, for the run is a thread of its own.
pub mod Steps
pub mod Approver
mod Tests
use text.Mathlib.Text.{starts_with}
use nexus_ai_team.Prelude.{
  ℕ, String, Bool, not, ◌==◌, ◌&&◌, ◌||◌, Option, none, some, List, [], ◌∷◌, ◌++◌, if◌then◌else◌,
}
use nexus_ai_team.Prelude.Text.{◌⁀◌, drop_text, nonempty}
use nexus_ai_team.Prelude.Dict.{Dict, lookup, assign, delete}
use nexus_ai_team.Effects.{Result, ok, err}
use nexus_ai_team.Orchestrator.Approval.{
  ApprovalRequest, ApprovalStore, status_value, is_pending, approve_in, reject_in, get,
}
use nexus_ai_team.Orchestrator.Nodes.Ceo.{HumanResponse}

pub data Update : Type 0 where
  callback_query : (user_id user_name callback_data : String) → Update
  text_message : (user_id user_name text : String) → Update
  other_update : Update

pub record Settings : Type 0 where
  pub telegram_webhook_secret : String
  pub bot_token : String

pub record Hook : Type 0 where
  pub approvals : ApprovalStore
  pub pending_rejections : Dict String
  pub resumed : List (String × HumanResponse)

-- _resume_graph
resume_graph : String → HumanResponse → Hook → Hook
resume_graph contract_id response h = record h {
  resumed = h.resumed ++ ((contract_id, response) ∷ []);
}

module _ (user_id user_name : String) (now : ℕ) (h : Hook) where
  -- The answer to a click, and what it leaves behind.
  click_approve : String → Option ApprovalRequest → String × Hook
  unfolding resume_graph approve_in
  click_approve request_id none = ("审批请求不存在", h)
  click_approve request_id (some req) =
      if not (is_pending req.status)
      then ("已处理: " ⁀ status_value req.status, h)
      else if not (req.approver_id == user_id)
      then ("你不是审批人，无权操作", h)
      else (
        "✅ 已批准",
        resume_graph req.contract_id (record { action = some "approve"; notes = none })
            (record h { approvals = (approve_in request_id user_name now h.approvals).1 }),
      )

  click_reject : String → Option ApprovalRequest → String × Hook
  unfolding assign
  click_reject request_id none = ("审批请求不存在", h)
  click_reject request_id (some req) =
      if not (is_pending req.status)
      then ("已处理: " ⁀ status_value req.status, h)
      else if not (req.approver_id == user_id)
      then ("你不是审批人，无权操作", h)
      else (
        "请回复拒绝原因",
        record h { pending_rejections = assign user_id request_id h.pending_rejections },
      )

  click : String → String × Hook
  unfolding click_approve click_reject get
  click callback_data =
      if starts_with callback_data "approve:"
      then click_approve (drop_text 8 callback_data) (get (drop_text 8 callback_data) h.approvals)
      else if starts_with callback_data "reject:"
      then click_reject (drop_text 7 callback_data) (get (drop_text 7 callback_data) h.approvals)
      else ("", h)

  -- `h` has the user's entry popped already.
  after_reject : ApprovalRequest → String → Result ApprovalRequest × ApprovalStore → Hook
  unfolding resume_graph
  after_reject req text (err e, st) = record h { approvals = st }
  after_reject req text (ok t, st) =
      resume_graph req.contract_id (record { action = some "reject"; notes = some text })
        (record h { approvals = st })

  finish_rejection : String → String → Option ApprovalRequest → Hook
  unfolding after_reject reject_in
  finish_rejection text request_id none = h
  finish_rejection text request_id (some req) =
      after_reject req text (reject_in request_id user_name text now h.approvals)

module _ (user_id user_name : String) (now : ℕ) (h : Hook) (text : String) where
  note : Option String → Hook
  unfolding finish_rejection get delete
  note none = h
  note (some request_id) =
      finish_rejection user_id user_name now
        (record h { pending_rejections = delete user_id h.pending_rejections }) text request_id
        (get request_id h.approvals)

unfoldable pub handle : Update → ℕ → Hook → String × Hook
unfolding click note lookup
handle (callback_query user_id user_name callback_data) now h =
    click user_id user_name now h callback_data
handle (text_message user_id user_name text) now h =
    ("", note user_id user_name now h text (lookup user_id h.pending_rejections))
handle other_update now h = ("", h)

-- The status of the response, the answer to a click and the state afterwards.
unfoldable pub telegram_webhook :
    Settings → (received_token : String) → Update → ℕ → Hook → ℕ × (String × Hook)
telegram_webhook settings received_token update now h =
    if nonempty settings.telegram_webhook_secret
      && not (settings.telegram_webhook_secret == received_token)
    then (403, ("", h))
    else if not (nonempty settings.bot_token)
    then (200, ("", h))
    else (200, handle update now h)
