-- ===== src/Orchestrator/Graph/Posts.antt =====
-- What a node does to the logs of the mail, and what one call of `send_mail` in it does.
use mathlib.Core.List.{append-nil}
use nexus_ai_team.Prelude.{
  ◌+◌, ltb, leb, ◌≡◌, sym, ap, ◌∙◌, String, Bool, true, false, not, ◌==◌, ◌&&◌, ◌||◌, ◌⊎◌, none, [],
  ◌∷◌, ◌++◌, if◌then◌else◌,
}
use nexus_ai_team.Prelude.Text.{nonempty}
use nexus_ai_team.Effects.{ok, pure, ◌>>=◌}
use nexus_ai_team.Orchestrator.State.{State, MailMessage}
use nexus_ai_team.Orchestrator.System.{World, System}
use nexus_ai_team.Orchestrator.Permissions.{check_mail_permission}
use nexus_ai_team.Orchestrator.Mail.{Delivery, sent, refused, send_mail, resolve_from_role}
use nexus_ai_team.Orchestrator.Mail.Delivered.{IsDelivery, send_mail-IsDelivery}
use nexus_ai_team.Effects.Ensures.{Ensures, Ensures-bind, Ensures-pure}
use nexus_ai_team.Orchestrator.Graph
use nexus_ai_team.Orchestrator.Graph.{Node, Target, node, end, next, execute}

-- The log of `t` is that of `s` with one mail more, and nothing was refused.
pub record IsPost (from to : String) (s t : State) : Type 0 where
  pub message : MailMessage
  pub log : t.mail_log ≡ s.mail_log ++ (message ∷ [])
  pub from_role : message.from_role ≡ from
  pub to_role : message.to_role ≡ to
  pub none_refused : t.mail_rejections ≡ s.mail_rejections

-- The logs stay as they are.
pub record IsSilent (s t : State) : Type 0 where
  pub log : t.mail_log ≡ s.mail_log
  pub none_refused : t.mail_rejections ≡ s.mail_rejections

-- The judgement of failed work goes to the CEO when no attempt is left.
abbrev pub judge_to : State → String
judge_to s =
    if s.qa_verdict == "PASS" || leb s.max_attempts s.attempt_count then "ceo" else "worker"

-- Whether the checks of a worker without any output are used up.
abbrev pub is_overdue : State → Bool
is_overdue s = ltb s.max_checks (s.check_count + 1) && not (nonempty s.worker_output)

-- What a node that was entered in the state `s` and returned `t` did to the logs.
abbrev pub Posts : Node → State → State → Type 0
Posts Graph.ceo_dispatch s t = IsPost "ceo" "manager" s t
Posts Graph.manager_plan s t = IsPost "manager" "worker" s t
Posts Graph.worker_accept s t = IsPost "worker" "manager" s t
Posts Graph.manager_reassign s t = IsPost "manager" (if t.escalated then "ceo" else "worker") s t
Posts Graph.worker_execute s t = IsPost "worker" "manager" s t
Posts Graph.qa_review s t = IsPost "qa" "manager" s t
Posts Graph.manager_review_after_qa s t = IsPost "manager" (judge_to s) s t
Posts Graph.progress_check s t =
    ((is_overdue s ≡ true) × IsPost "manager" "ceo" s t) ⊎ ((is_overdue s ≡ false) × IsSilent s t)
Posts Graph.ceo_approve s t = IsSilent s t
Posts Graph.ceo_handle_escalation s t = IsSilent s t

module _ (s : State) where
  pub mail-IsPost :
      (w : World) (phase from to subject body kind : String) (f : Delivery → State)
      → (resolve_from_role phase ≡ ok from)
      → (check_mail_permission from to ≡ none)
      → ((d : Delivery) → (f d).mail_log ≡ s.mail_log ++ sent d)
      → ((d : Delivery) → refused d ≡ [] → (f d).mail_rejections ≡ s.mail_rejections)
      → Ensures (IsPost from to s) (send_mail w phase to subject body kind >>= λ m. pure (f m))
  mail-IsPost w phase from to subject body kind f hf hc log refusals =
      Ensures-bind {Q = IsDelivery from to} _
        (λ d h. Ensures-pure _ (record {
          message = h.message;
          log = log d ∙ ap (λ x. s.mail_log ++ x) h.log;
          from_role = h.from_role;
          to_role = h.to_role;
          none_refused = refusals d h.none_refused;
        }))
        _ (send_mail-IsDelivery w phase from to subject body kind hf hc)

  -- The state keeps what was refused.
  pub logged :
      (w : World) (from to subject body kind : String) (f : Delivery → State)
      → (resolve_from_role s.current_phase ≡ ok from)
      → (check_mail_permission from to ≡ none)
      → ((d : Delivery) → (f d).mail_log ≡ s.mail_log ++ sent d)
      → ((d : Delivery) → (f d).mail_rejections ≡ s.mail_rejections ++ refused d)
      → Ensures
          (IsPost from to s)
          (send_mail w s.current_phase to subject body kind >>= λ m. pure (f m))
  logged w from to subject body kind f hf hc log refusals =
      mail-IsPost w s.current_phase from to subject body kind f hf hc log
        (λ d h. rw (refusals d, h) (append-nil s.mail_rejections))

  -- A mail whose recipient shows in whether the state is escalated.
  pub addressed :
      (w : World) (phase to subject body kind : String) (f : Delivery → State)
      → (resolve_from_role phase ≡ ok "manager")
      → (check_mail_permission "manager" to ≡ none)
      → ((d : Delivery) → (f d).mail_log ≡ s.mail_log ++ sent d)
      → ((d : Delivery) → refused d ≡ [] → (f d).mail_rejections ≡ s.mail_rejections)
      → ((d : Delivery) → (if (f d).escalated then "ceo" else "worker") ≡ to)
      → Ensures
          (Posts Graph.manager_reassign s)
          (send_mail w phase to subject body kind >>= λ m. pure (f m))
  addressed w phase to subject body kind f hf hc log refusals named =
      Ensures-bind {Q = IsDelivery "manager" to} _
        (λ d h. Ensures-pure _ (record {
          message = h.message;
          log = log d ∙ ap (λ x. s.mail_log ++ x) h.log;
          from_role = h.from_role;
          to_role = h.to_role ∙ sym (named d);
          none_refused = refusals d h.none_refused;
        }))
        _ (send_mail-IsDelivery w phase "manager" to subject body kind hf hc)

  pub silent : (t : State) → IsSilent s t → Ensures {S = System} (IsSilent s) (pure t)
  silent t h = Ensures-pure t h
