-- ===== src/Gateway/ApprovalWebhook/Steps.antt =====
-- What one update of the bot leaves behind.
use text.Mathlib.Text.{starts_with}
use nexus_ai_team.Prelude.{
  ℕ, ◌≡◌, refl, ◌∙◌, String, not, ◌==◌, ◌&&◌, inl, inr, Option, none, some, Bool-cases, arith,
  eq_iff,
}
use nexus_ai_team.Prelude.Text.{drop_text, nonempty}
use nexus_ai_team.Prelude.Dict.{lookup, lookup-assign, lookup-delete}
use nexus_ai_team.Effects.{Result, ok, err}
use nexus_ai_team.Orchestrator.Approval.{ApprovalRequest, ApprovalStore, is_pending, reject_in, get}
use nexus_ai_team.Gateway.ApprovalWebhook.{
  Update, callback_query, text_message, other_update, Settings, Hook, resume_graph, click_approve,
  click_reject, click, after_reject, finish_rejection, note, handle, telegram_webhook,
}
use nexus_ai_team.Orchestrator.Approval.Decisions.{
  Decides, IsKeyed, nothing_decided, Decides-IsKeyed, approve_in-Decides, reject_in-Decides,
}

-- Who asked to reject a request is its approver.
pub record IsSound (h : Hook) : Type 0 where
  pub keyed : IsKeyed h.approvals
  pub owned :
      (user id : String) (r : ApprovalRequest)
      → lookup user h.pending_rejections ≡ some id
      → lookup id h.approvals.store ≡ some r
      → r.approver_id ≡ user

abbrev pub sender : Update → String
sender (callback_query user_id user_name callback_data) = user_id
sender (text_message user_id user_name text) = user_id
sender other_update = ""

-- The step from `h` to `k`.
abbrev pub Steps : String → Hook → Hook → Type 0
Steps user h k = IsSound k × Decides user h.approvals k.approvals

stay : (user : String) (h : Hook) → IsSound h → Steps user h h
stay user h i = (i, nothing_decided user h.approvals)

-- The requests are decided, and no rejection is noted.
decide-Steps :
    (user : String) (h k : Hook)
    → IsSound h
    → Decides user h.approvals k.approvals
    → ((v id : String)
        → lookup v k.pending_rejections ≡ some id
        → lookup v h.pending_rejections ≡ some id)
    → Steps user h k
decide-Steps user h k i d fewer = (
  record {
    keyed = Decides-IsKeyed user h.approvals k.approvals d i.keyed;
    owned = λ v id r p q.
        let (old, there, by) = d id r q in by.approver ∙ i.owned v id old (fewer v id p) there;
  },
  d,
)

module _ (user_id user_name : String) (now : ℕ) (h : Hook) (i : IsSound h) where
  click_approve-Steps :
      (id : String) (o : Option ApprovalRequest)
      → lookup id h.approvals.store ≡ o
      → Steps user_id h (click_approve user_id user_name now h id o).1
  unfolding click_approve resume_graph
  click_approve-Steps id none e = stay user_id h i
  click_approve-Steps id (some r) e = elim (Bool-cases (is_pending r.status)) [
    | inr settled ↦ rw settled (stay user_id h i)
    | inl open_now ↦ elim (Bool-cases (r.approver_id == user_id)) [
      | inr other ↦ rw (open_now, other) (stay user_id h i)
      | inl mine ↦
          rw (open_now, mine)
            (decide-Steps user_id h _ i
              (approve_in-Decides user_id user_name id now h.approvals r i.keyed e
                (ground (arith, mine, eq_iff r.approver_id user_id)))
              (λ v j p. p))
    ]
  ]

  click_reject-Steps :
      (id : String) (o : Option ApprovalRequest)
      → lookup id h.approvals.store ≡ o
      → Steps user_id h (click_reject user_id user_name now h id o).1
  unfolding click_reject
  click_reject-Steps id none e = stay user_id h i
  click_reject-Steps id (some r) e = elim (Bool-cases (is_pending r.status)) [
    | inr settled ↦ rw settled (stay user_id h i)
    | inl open_now ↦ elim (Bool-cases (r.approver_id == user_id)) [
      | inr other ↦ rw (open_now, other) (stay user_id h i)
      | inl mine ↦
          rw (open_now, mine)
            (
              record {
                keyed = i.keyed;
                owned = λ v j q p there. ground (
                  arith,
                  eq_iff user_id v,
                  lookup-assign user_id v id h.pending_rejections,
                  p,
                  e,
                  there,
                  mine,
                  eq_iff r.approver_id user_id,
                  i.owned v j q,
                );
              },
              nothing_decided user_id h.approvals,
            )
    ]
  ]

  click-Steps :
      (callback_data : String) → Steps user_id h (click user_id user_name now h callback_data).1
  unfolding click get
  click-Steps callback_data = elim (Bool-cases (starts_with callback_data "approve:")) [
    | inl y ↦ rw y (click_approve-Steps (drop_text 8 callback_data) _ refl)
    | inr n ↦ elim (Bool-cases (starts_with callback_data "reject:")) [
      | inl y ↦ rw (n, y) (click_reject-Steps (drop_text 7 callback_data) _ refl)
      | inr m ↦ rw (n, m) (stay user_id h i)
    ]
  ]

  after_reject-Steps :
      (g : Hook) (r : ApprovalRequest) (text : String) (d : Result ApprovalRequest × ApprovalStore)
      → ((v id : String)
          → lookup v g.pending_rejections ≡ some id
          → lookup v h.pending_rejections ≡ some id)
      → Decides user_id h.approvals d.1
      → Steps user_id h (after_reject user_id user_name now g r text d)
  unfolding after_reject resume_graph
  after_reject-Steps g r text (err e, st) fewer d = decide-Steps user_id h _ i d fewer
  after_reject-Steps g r text (ok t, st) fewer d = decide-Steps user_id h _ i d fewer

  finish_rejection-Steps :
      (g : Hook) (text id : String) (o : Option ApprovalRequest)
      → g.approvals ≡ h.approvals
      → ((v j : String)
          → lookup v g.pending_rejections ≡ some j
          → lookup v h.pending_rejections ≡ some j)
      → lookup user_id h.pending_rejections ≡ some id
      → lookup id h.approvals.store ≡ o
      → Steps user_id h (finish_rejection user_id user_name now g text id o)
  unfolding finish_rejection
  finish_rejection-Steps g text id none same fewer asked e =
      decide-Steps user_id h g i (rw same (nothing_decided user_id h.approvals)) fewer
  finish_rejection-Steps g text id (some r) same fewer asked e =
      after_reject-Steps g r text (reject_in id user_name text now g.approvals) fewer (
        rw same (
          reject_in-Decides user_id user_name text id now h.approvals r i.keyed e
            (i.owned user_id id r asked e)))

  note-Steps :
      (text : String) (o : Option String)
      → lookup user_id h.pending_rejections ≡ o
      → Steps user_id h (note user_id user_name now h text o)
  unfolding note get
  note-Steps text none e = stay user_id h i
  note-Steps text (some id) e =
      finish_rejection-Steps _ text id _ refl
        (λ v j p. ground (arith, p, eq_iff user_id v, lookup-delete user_id v h.pending_rejections))
        e refl

handle-Steps : (u : Update) (now : ℕ) (h : Hook) → IsSound h → Steps (sender u) h (handle u now h).1
unfolding handle
handle-Steps (callback_query user_id user_name callback_data) now h i =
    click-Steps user_id user_name now h i callback_data
handle-Steps (text_message user_id user_name text) now h i =
    note-Steps user_id user_name now h i text _ refl
handle-Steps other_update now h i = stay "" h i

pub webhook-Steps :
    (settings : Settings) (token : String) (u : Update) (now : ℕ) (h : Hook)
    → IsSound h
    → Steps (sender u) h (telegram_webhook settings token u now h).1.1
unfolding telegram_webhook
webhook-Steps settings token u now h i =
    elim (Bool-cases (
      nonempty settings.telegram_webhook_secret
      && not (settings.telegram_webhook_secret == token))) [
        | inl forged ↦ rw forged (stay (sender u) h i)
        | inr fine ↦ elim (Bool-cases (nonempty settings.bot_token)) [
          | inl y ↦ rw (fine, y) (handle-Steps u now h i)
          | inr n ↦ rw (fine, n) (stay (sender u) h i)
        ]
      ]
