-- ===== src/Gateway/ApprovalWebhook/Approver.antt =====
-- Who may decide.
use nexus_ai_team.Prelude.{ℕ, ◌≡◌, String, some, List, [], ◌∷◌}
use nexus_ai_team.Prelude.Dict.{lookup}
use nexus_ai_team.Orchestrator.Approval.{ApprovalRequest}
use nexus_ai_team.Gateway.ApprovalWebhook.{Update, Settings, Hook, telegram_webhook}
use nexus_ai_team.Orchestrator.Approval.Decisions.{IsDecidedBy, IsKeyed}
use nexus_ai_team.Gateway.ApprovalWebhook.Steps.{IsSound, sender, webhook-Steps}

-- An update of the bot with the token that came with it and the time.
pub record Delivery : Type 0 where
  pub token : String
  pub update : Update
  pub at : ℕ

unfoldable pub serve : Settings → List Delivery → Hook → Hook
serve settings [] h = h
serve settings (d ∷ ds) h =
    serve settings ds (telegram_webhook settings d.token d.update d.at h).1.1

serve-IsSound :
    (settings : Settings) (ds : List Delivery) (h : Hook)
    → IsSound h
    → IsSound (serve settings ds h)
unfolding serve
serve-IsSound settings [] h i = i
serve-IsSound settings (d ∷ ds) h i =
    serve-IsSound settings ds _ (webhook-Steps settings d.token d.update d.at h i).0

-- After any updates that follow a start with no rejection noted, in a store that keeps its requests
-- under their own ids, an update changes the status of a request only if its sender is the
-- request's approver; each request is one that was there before, with the same id and approver.
pub only_approver :
    (settings : Settings) (ds : List Delivery) (token : String) (u : Update) (now : ℕ) (h : Hook)
    (j : String) (t : ApprovalRequest)
    → IsKeyed h.approvals
    → h.pending_rejections ≡ []
    → lookup j (telegram_webhook settings token u now (serve settings ds h)).1.1.approvals.store
      ≡ some t
    → (q : ApprovalRequest) × (lookup j (serve settings ds h).approvals.store ≡ some q)
      × IsDecidedBy (sender u) q t
unfolding lookup
only_approver settings ds token u now h j t keyed fresh there =
    let sound =
      serve-IsSound settings ds h
        (record { keyed = keyed; owned = λ user id r p q. cc (rw fresh at p) }) in
    (webhook-Steps settings token u now (serve settings ds h) sound).1 j t there
