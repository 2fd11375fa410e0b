-- ===== src/Heartbeat/Alerts.antt =====
-- heartbeat/alerts.py. Whether a post succeeds only shows in the log, so posts are just listed.
use nexus_ai_team.Prelude.{
  ℕ, suc, ◌-◌, leb, String, Bool, true, false, not, ◌==◌, ◌&&◌, Option, List, [], ◌∷◌, ◌++◌, get_or,
  is_empty, if◌then◌else◌,
}
use nexus_ai_team.Prelude.Text.{◌⁀◌, nonempty, upper, join}
use nexus_ai_team.Prelude.Dict.{Dict, lookup, assign}
use nexus_ai_team.Heartbeat.Monitor.{
  HealthStatus, SystemHealth, statuses, system_is_healthy, has_critical_issues,
}

pub data AlertSeverity : Type 0 where
  info warning critical : AlertSeverity

abbrev pub severity_value : AlertSeverity → String
severity_value info = "info"
severity_value warning = "warning"
severity_value critical = "critical"

-- A message to the bot, with the type under which it was let through, and what the clock showed
-- then.
pub record Post : Type 0 where
  pub alert_type : String
  pub at : ℕ
  pub text : String

pub record StoredFile : Type 0 where
  pub path : String
  pub size : ℕ
  pub modified : ℕ

-- The files that the recovery may delete: None for a directory that does not exist. Of a
-- __pycache__ directory only the size matters.
pub record Disk : Type 0 where
  pub logs : Option (List StoredFile)
  pub reports : Option (List StoredFile)
  pub pycaches : List ℕ

-- What the alerts and the recovery keep between two reports, and what they did.
pub record Pulse : Type 0 where
  pub last_alert : Dict ℕ
  pub recovery_attempts : Dict ℕ
  pub posts : List Post
  pub restarted : ℕ
  pub restart_calls : ℕ
  pub unlink_calls : ℕ
  pub clock_reads : ℕ
  pub disk : Disk

-- The settings, and the answers of the world: the clock, the text of the time, the success of each
-- restart and of each deletion, and the wall clock that a machine's time zone shows at an instant.
pub record Beat : Type 0 where
  pub telegram_bot_token : String
  pub telegram_chat_id : String
  pub enable_telegram : Bool
  pub enable_auto_recovery : Bool
  pub enable_restart : Bool
  pub postgres_url : String
  pub token_budget_limit : ℕ
  pub clock : ℕ → ℕ
  pub stamp : ℕ → String
  pub restarts : ℕ → Bool
  pub unlinks : ℕ → Bool
  pub local_clock : ℕ → ℕ

-- 300 seconds
abbrev pub alert_cooldown : ℕ
alert_cooldown = 300000000

unfoldable pub should_send_alert : Beat → (alert_type : String) → Pulse → Bool × Pulse
unfolding lookup assign
should_send_alert beat alert_type p =
    let now = beat.clock p.clock_reads in
    if leb alert_cooldown (now - get_or (lookup alert_type p.last_alert) 0)
    then (
      true,
      record p { clock_reads = suc p.clock_reads; last_alert = assign alert_type now p.last_alert },
    )
    else (false, record p { clock_reads = suc p.clock_reads })

-- The post of an alert that was let through at the time `at`.
unfoldable pub post_alert : (alert_type : String) → (at : ℕ) → (text : String) → Pulse → Pulse
post_alert alert_type at text p = record p {
  clock_reads = suc p.clock_reads;
  posts = record { alert_type = alert_type; at = at; text = text } ∷ p.posts;
}

-- A post under a type, if its cooldown is over.
unfoldable pub send_limited : Beat → (alert_type : String) → (ℕ → String) → Pulse → Pulse
unfolding should_send_alert post_alert
send_limited beat alert_type text_at p =
    let (passes, q) = should_send_alert beat alert_type p in
    if passes then post_alert alert_type (beat.clock p.clock_reads) (text_at q.clock_reads) q else q

detail_lines : (bullet : String) → Dict String → List String
detail_lines bullet [] = []
detail_lines bullet ((key, value) ∷ rest) = (bullet ⁀ key ⁀ ": " ⁀ value) ∷ detail_lines bullet rest

component_lines : List HealthStatus → List String
unfolding detail_lines
component_lines [] = []
component_lines (h ∷ hs) =
    ("• *" ⁀ h.component ⁀ "*: " ⁀ h.message)
    ∷ (detail_lines "  - " h.details ++ component_lines hs)

health_emoji : AlertSeverity → String
health_emoji critical = "🚨"
health_emoji _ = "⚠\u{fe0f}"

health_text : AlertSeverity → List HealthStatus → (time : String) → String
unfolding health_emoji component_lines join upper
health_text severity components time = join "\n" (
    (health_emoji severity ⁀ " *NEXUS Health Alert*")
    ∷ ("Severity: " ⁀ upper (severity_value severity))
    ∷ ("Time: " ⁀ time)
    ∷ ""
    ∷ component_lines components)

unfoldable pub is_configured : Beat → Bool
is_configured beat = nonempty beat.telegram_bot_token && nonempty beat.telegram_chat_id

unfoldable pub send_telegram_alert : Beat → AlertSeverity → List HealthStatus → Pulse → Pulse
unfolding send_limited health_text is_configured
send_telegram_alert beat severity components p =
    if not (is_configured beat)
    then p
    else send_limited beat ("telegram_" ⁀ severity_value severity)
        (λ n. health_text severity components (beat.stamp n)) p

unfoldable pub with_status : String → List HealthStatus → List HealthStatus
with_status status [] = []
with_status status (h ∷ hs) =
    let rest = with_status status hs in if h.status == status then h ∷ rest else rest

unfoldable pub send_critical_alert : Beat → SystemHealth → Pulse → Pulse
unfolding with_status send_telegram_alert is_configured
send_critical_alert beat health p =
    let critical_components = with_status "critical" (statuses health) in
    if is_empty critical_components
    then p
    else if beat.enable_telegram && is_configured beat
    then send_telegram_alert beat critical critical_components p
    else p

-- The cooldown of "warning" starts whether or not Telegram is enabled.
unfoldable pub send_warning_alert : Beat → SystemHealth → Pulse → Pulse
unfolding with_status should_send_alert send_telegram_alert is_configured
send_warning_alert beat health p =
    let degraded_components = with_status "degraded" (statuses health) in
    if is_empty degraded_components
    then p
    else let (passes, q) = should_send_alert beat "warning" p in
      if passes && beat.enable_telegram && is_configured beat
      then send_telegram_alert beat warning degraded_components q
      else q

-- AlertManager.process_health
unfoldable pub alert_health : Beat → SystemHealth → Pulse → Pulse
unfolding send_critical_alert send_warning_alert has_critical_issues system_is_healthy
alert_health beat health p =
    if has_critical_issues health
    then send_critical_alert beat health p
    else if not (system_is_healthy health)
    then send_warning_alert beat health p
    else p

custom_emoji : AlertSeverity → String
custom_emoji info = "ℹ\u{fe0f}"
custom_emoji warning = "⚠\u{fe0f}"
custom_emoji critical = "🚨"

custom_text : AlertSeverity → (message : String) → Dict String → (time : String) → String
unfolding custom_emoji detail_lines join upper
custom_text severity message details time = join "\n" (
    (custom_emoji severity ⁀ " *NEXUS Alert*")
    ∷ ("Severity: " ⁀ upper (severity_value severity))
    ∷ ("Time: " ⁀ time)
    ∷ ""
    ∷ message
    ∷ (if is_empty details then [] else "" ∷ detail_lines "• " details))

unfoldable pub send_custom_alert :
    Beat → AlertSeverity → (message : String) → (details : Dict String) → Pulse → Pulse
unfolding send_limited custom_text is_configured
send_custom_alert beat severity message details p =
    if beat.enable_telegram && is_configured beat
    then send_limited beat ("custom_" ⁀ severity_value severity)
        (λ n. custom_text severity message details (beat.stamp n)) p
    else p
