-- ===== src/Orchestrator/Mail/Delivered.antt =====
-- Whether `send_mail` delivers.
use nexus_ai_team.Prelude.{◌≡◌, refl, String, Bool, true, false, Option, none, some, [], ◌∷◌}
use nexus_ai_team.Effects.{ok}
use nexus_ai_team.Orchestrator.State.{MailMessage}
use nexus_ai_team.Orchestrator.Permissions.{check_mail_permission}
use nexus_ai_team.Orchestrator.System.{World}
use nexus_ai_team.Orchestrator.Mail.{Delivery, deliver, send_mail, sent, refused, resolve_from_role}
use nexus_ai_team.Effects.Ensures.{Ensures, Ensures-seq, Ensures-bind, Ensures-pure, Ensures-lift}

-- One mail is delivered.
pub record IsDelivery (from to : String) (d : Delivery) : Type 0 where
  pub message : MailMessage
  pub log : sent d ≡ message ∷ []
  pub none_refused : refused d ≡ []
  pub from_role : message.from_role ≡ from
  pub to_role : message.to_role ≡ to

deliver-IsDelivery :
    (from to subject body kind ts : String) (r : Option String)
    → r ≡ none
    → IsDelivery from to (deliver from to subject body kind ts r)
unfolding deliver sent refused
deliver-IsDelivery from to subject body kind ts none h = record {
  message = _;
  log = refl;
  none_refused = refl;
  from_role = refl;
  to_role = refl;
}
deliver-IsDelivery from to subject body kind ts (some reason) h = cc

pub send_mail-IsDelivery :
    (w : World) (phase from to subject body kind : String)
    → (resolve_from_role phase ≡ ok from)
    → (check_mail_permission from to ≡ none)
    → Ensures (IsDelivery from to) (send_mail w phase to subject body kind)
unfolding send_mail
send_mail-IsDelivery w phase from to subject body kind hf hc =
    Ensures-bind {Q = λ a. a ≡ from} _
      (λ a e. Ensures-seq _ _ (λ t. Ensures-pure _ (
        rw e (
          deliver-IsDelivery from to subject body kind (w.iso t) (check_mail_permission from to)
            hc))))
      _ (Ensures-lift _ (rw hf refl))

unfoldable pub may_pass : Option String → Bool
may_pass none = true
may_pass (some reason) = false

deliver-none :
    (from to subject body kind ts : String) (r : Option String)
    → may_pass r ≡ false
    → sent (deliver from to subject body kind ts r) ≡ []
unfolding deliver sent may_pass
deliver-none from to subject body kind ts none h = cc
deliver-none from to subject body kind ts (some reason) h = refl

-- A mail that may not pass is not sent.
pub send_mail_forbidden :
    (w : World) (phase from to subject body kind : String)
    → (resolve_from_role phase ≡ ok from)
    → (may_pass (check_mail_permission from to) ≡ false)
    → Ensures (λ d. sent d ≡ []) (send_mail w phase to subject body kind)
unfolding send_mail
send_mail_forbidden w phase from to subject body kind hf hc =
    Ensures-bind {Q = λ a. a ≡ from} _
      (λ a e. Ensures-seq _ _ (λ t. Ensures-pure _ (
        rw e
          (deliver-none from to subject body kind (w.iso t) (check_mail_permission from to) hc))))
      _ (Ensures-lift _ (rw hf refl))
