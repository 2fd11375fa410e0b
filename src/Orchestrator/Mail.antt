-- ===== src/Orchestrator/Mail.antt =====
-- nexus/orchestrator/mail.py: mail between the roles. The sender is derived from the phase.
pub mod Legal
pub mod Delivered
use nexus_ai_team.Prelude.{ℕ, suc, ltb, String, Option, none, some, List, [], ◌∷◌, if◌then◌else◌}
use nexus_ai_team.Prelude.Text.{◌⁀◌, decimal, join}
use nexus_ai_team.Prelude.Dict.{Dict, lookup}
use nexus_ai_team.Effects.{Result, ok, err, value_error, ◌>>=◌, ◌>>◌, pure, lift}
use nexus_ai_team.Orchestrator.State.{MailMessage, MailRejection}
use nexus_ai_team.Orchestrator.Permissions.{check_mail_permission}
use nexus_ai_team.Orchestrator.System.{World, Act, now}

abbrev pub phase_to_role : Dict String
phase_to_role =
    ("ceo_dispatch", "ceo")
    ∷ ("ceo_approval", "ceo")
    ∷ ("ceo_escalation", "ceo")
    ∷ ("completed", "ceo")
    ∷ ("manager_planning", "manager")
    ∷ ("manager_review", "manager")
    ∷ ("worker_executing", "worker")
    ∷ ("qa_reviewing", "qa")
    ∷ ("escalated", "manager")
    ∷ ("worker_accepted", "worker")
    ∷ ("worker_rejected", "worker")
    ∷ ("worker_accepting", "manager")
    ∷ ("manager_reassigning", "manager")
    ∷ ("check_on_track", "manager")
    ∷ ("check_stuck", "manager")
    ∷ ("check_escalation", "manager")
    ∷ ("check_delayed", "manager")
    ∷ []

role_or_error : String → Option String → Result String
role_or_error phase none =
    err (value_error ("无法从 current_phase='" ⁀ phase ⁀ "' 推断发件人角色，" ⁀ "请在 _PHASE_TO_ROLE 中添加对应映射。"))
role_or_error phase (some role) = ok role

unfoldable pub resolve_from_role : String → Result String
unfolding role_or_error lookup
resolve_from_role current_phase = role_or_error current_phase (lookup current_phase phase_to_role)

abbrev pub Delivery : Type 0
Delivery = Option MailMessage × Option MailRejection

-- The message, or the record of its refusal.
unfoldable pub deliver :
    (from_role to_role subject body msg_type ts : String) → Option String → Delivery
deliver from_role to_role subject body msg_type ts (some reason) = (
  none,
  some (record {
    attempted_from = from_role;
    attempted_to = to_role;
    msg_type = msg_type;
    reason = reason;
    timestamp = ts;
  }),
)
deliver from_role to_role subject body msg_type ts none = (
  some (record {
    from_role = from_role;
    to_role = to_role;
    type = msg_type;
    subject = "[" ⁀ ts ⁀ "] " ⁀ subject;
    body = body;
  }),
  none,
)

-- The deprecated `from_role` argument is never given by the program and is ignored there.
unfoldable pub send_mail :
    World → (state_phase to_role subject body msg_type : String) → Act Delivery
unfolding deliver
send_mail w state_phase to_role subject body msg_type = do
  inferred_from ← lift (resolve_from_role state_phase)
  t ← now w
  pure (
      deliver inferred_from to_role subject body msg_type (w.iso t)
        (check_mail_permission inferred_from to_role))

-- `[mail] if mail else []`, and the same for a rejection.
unfoldable pub sent : Delivery → List MailMessage
sent (none, r) = []
sent (some m, r) = m ∷ []

unfoldable pub refused : Delivery → List MailRejection
refused (m, none) = []
refused (m, some r) = r ∷ []

-- format(n, "02d")
two_digits : ℕ → String
two_digits n = (if ltb n 10 then "0" else "") ⁀ decimal n

mail_lines : ℕ → List MailMessage → List String
mail_lines i [] = []
mail_lines i (msg ∷ log) =
    ("  ["
      ⁀ two_digits i
      ⁀ "] "
      ⁀ msg.from_role
      ⁀ " → "
      ⁀ msg.to_role
      ⁀ " ("
      ⁀ msg.type
      ⁀ ") — "
      ⁀ msg.subject)
    ∷ mail_lines (suc i) log

unfoldable pub format_mail_log : List MailMessage → String
unfolding mail_lines two_digits
format_mail_log [] = "(无邮件记录)"
format_mail_log (msg ∷ log) = join "\n" (mail_lines 1 (msg ∷ log))

rejection_lines : ℕ → List MailRejection → List String
rejection_lines i [] = []
rejection_lines i (rec ∷ log) =
    ("  ["
      ⁀ two_digits i
      ⁀ "] REJECTED "
      ⁀ rec.attempted_from
      ⁀ " → "
      ⁀ rec.attempted_to
      ⁀ " ("
      ⁀ rec.msg_type
      ⁀ ") @ "
      ⁀ rec.timestamp
      ⁀ "\n        reason: "
      ⁀ rec.reason)
    ∷ rejection_lines (suc i) log

unfoldable pub format_rejection_log : List MailRejection → String
unfolding rejection_lines two_digits
format_rejection_log [] = "(无违规通信记录)"
format_rejection_log (rec ∷ log) = join "\n" (rejection_lines 1 (rec ∷ log))
