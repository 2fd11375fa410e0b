-- ===== src/Orchestrator/Mail/Legal.antt =====
-- Whatever `send_mail` sends follows the chain of command.
use nexus_ai_team.Prelude.{◌≡◌, refl, String, Option, none, some, All}
use nexus_ai_team.Orchestrator.State.{MailMessage}
use nexus_ai_team.Orchestrator.Permissions.{check_mail_permission}
use nexus_ai_team.Orchestrator.Permissions.Chain.{MayWrite, check_mail_permission_iff}
use nexus_ai_team.Orchestrator.System.{World}
use nexus_ai_team.Orchestrator.Mail.{deliver, send_mail, sent, resolve_from_role}
use nexus_ai_team.Effects.Ensures.{
  OnOk, Ensures, Ensures-seq, Ensures-bind, Ensures-pure, Ensures-lift,
}

-- The mail follows the chain of command.
abbrev pub IsLegal : MailMessage → Type 0
IsLegal m = MayWrite m.from_role m.to_role

deliver-IsLegal :
    (from to subject body kind ts : String) (r : Option String)
    → check_mail_permission from to ≡ r
    → All IsLegal (sent (deliver from to subject body kind ts r))
unfolding deliver sent
deliver-IsLegal from to subject body kind ts none h = ((check_mail_permission_iff from to).0 h, tt)
deliver-IsLegal from to subject body kind ts (some reason) h = tt

pub send_mail-IsLegal :
    (w : World) (phase to subject body kind : String)
    → Ensures (λ d. All IsLegal (sent d)) (send_mail w phase to subject body kind)
unfolding send_mail
send_mail-IsLegal w phase to subject body kind = Ensures-seq _ _ λ from.
    Ensures-seq _ _ λ t. Ensures-pure _ (deliver-IsLegal from to subject body kind (w.iso t) _ refl)

-- From a phase that no role stands for, no mail is sent and none is refused: the call raises.
pub send_mail_unknown :
    (w : World) (phase to subject body kind : String)
    → OnOk (λ role. ⊥) (resolve_from_role phase)
    → Ensures (λ d. ⊥) (send_mail w phase to subject body kind)
unfolding send_mail
send_mail_unknown w phase to subject body kind h =
    Ensures-bind {Q = λ a. ⊥} _ (λ a f. absurd f) _ (Ensures-lift _ h)
