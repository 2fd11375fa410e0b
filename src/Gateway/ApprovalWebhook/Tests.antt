-- ===== src/Gateway/ApprovalWebhook/Tests.antt =====
-- Decisions on a request whose approver is the user 42.
use nexus_ai_team.Prelude.{
  ◌≡◌, refl, Bool-cases, inl, inr, ◌==◌, arith, eq_iff, some, List, [], ◌∷◌,
}
use nexus_ai_team.Prelude.Text.{drop_text, strip}
use nexus_ai_team.Prelude.Dict.{lookup}
use nexus_ai_team.Orchestrator.Approval.{ApprovalRequest, fresh_request, human, rejected}
use nexus_ai_team.Orchestrator.Approval.Decisions.{IsDecidedBy, IsKeyed}
use nexus_ai_team.Gateway.ApprovalWebhook.{
  callback_query, text_message, Settings, Hook, telegram_webhook, handle,
}
use nexus_ai_team.Gateway.ApprovalWebhook.Approver.{Delivery, serve, only_approver}

abbrev settings : Settings
settings = record { telegram_webhook_secret = "s3cret"; bot_token = "t0ken" }

abbrev open_request : ApprovalRequest
open_request = fresh_request "abcdef12" "CTR-1" "Approval" "Summary" human "42" [] 5

abbrev start : Hook
start = record {
  approvals = record {
    store = ("APR-ABCDEF12", open_request) ∷ [];
    by_contract = ("CTR-1", "APR-ABCDEF12") ∷ [];
    rows = [];
  };
  pending_rejections = [];
  resumed = [];
}

start-IsKeyed : IsKeyed start.approvals
unfolding lookup fresh_request
start-IsKeyed j r h = elim (Bool-cases ("APR-ABCDEF12" == j)) [
  | inl y ↦ ground (arith, eq_iff "APR-ABCDEF12" j, y, h)
  | inr n ↦ cc (rw n at h)
]

-- The click to reject, which the note follows.
abbrev clicked : List Delivery
clicked =
    (record { token = "s3cret"; update = callback_query "42" "Ann" "reject:APR-ABCDEF12"; at = 6 })
    ∷ []

abbrev refused_request : ApprovalRequest
refused_request = record open_request {
  status = rejected;
  rejection_notes = "too slow";
  resolved_at = some 7;
  resolved_by = "Ann";
}

only_approver_example :
    (q : ApprovalRequest) × (lookup "APR-ABCDEF12" (serve settings clicked start).approvals.store
      ≡ some q)
    × IsDecidedBy "42" q refused_request
unfolding telegram_webhook serve lookup handle drop_text fresh_request strip
only_approver_example =
    only_approver settings clicked "s3cret" (text_message "42" "Ann" " too slow ") 7 start
      "APR-ABCDEF12" refused_request start-IsKeyed refl refl
