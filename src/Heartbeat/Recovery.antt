-- ===== src/Heartbeat/Recovery.antt =====
-- heartbeat/recovery.py, with the attempts kept in memory, as the service sets it up.
pub mod Cleanup
pub mod Frame
pub mod Keeps
use nexus_ai_team.Prelude.{
  ℕ, suc, ◌+◌, ltb, String, Bool, true, false, not, ◌==◌, Option, List, [], ◌∷◌, get_or,
  if◌then◌else◌,
}
use nexus_ai_team.Prelude.Text.{◌⁀◌, decimal}
use nexus_ai_team.Prelude.Dict.{Dict, lookup, assign}
use nexus_ai_team.Effects.{Error, Result, ok, err}
use nexus_ai_team.Heartbeat.Monitor.{HealthStatus, SystemHealth, is_critical}
use nexus_ai_team.Heartbeat.Alerts.{
  AlertSeverity, warning, critical, Pulse, Beat, send_custom_alert,
}
use nexus_ai_team.Heartbeat.Recovery.Cleanup.{cleanup}

abbrev pub max_recovery_attempts : ℕ
max_recovery_attempts = 3

unfoldable pub attempt_count : String → Pulse → ℕ
unfolding lookup
attempt_count component p = get_or (lookup component p.recovery_attempts) 0

unfoldable pub should_attempt_recovery : String → Pulse → Bool
unfolding attempt_count
should_attempt_recovery component p = ltb (attempt_count component p) max_recovery_attempts

unfoldable pub record_recovery_attempt : String → Pulse → Pulse
unfolding assign attempt_count
record_recovery_attempt component p = record p {
  recovery_attempts = assign component (suc (attempt_count component p)) p.recovery_attempts;
}

unfoldable pub gateway_is_down : Beat → HealthStatus → Pulse → Pulse
unfolding send_custom_alert
gateway_is_down beat status p =
    send_custom_alert beat critical
      "Gateway is down and automatic restart is disabled. Manual intervention required."
      (("component", "gateway") ∷ ("error", status.message) ∷ []) p

-- An attempt counts only when the restart succeeds.
unfoldable pub restart_gateway : Beat → HealthStatus → Pulse → Pulse
unfolding record_recovery_attempt gateway_is_down send_custom_alert
restart_gateway beat status p =
    if beat.restarts p.restart_calls
    then record_recovery_attempt "gateway" (
        send_custom_alert beat warning "Gateway was unresponsive and has been restarted"
          (("component", "gateway") ∷ ("method", "systemd") ∷ [])
          (record p { restart_calls = suc p.restart_calls; restarted = suc p.restarted }))
    else gateway_is_down beat status (record p { restart_calls = suc p.restart_calls })

unfoldable pub recover_gateway : Beat → HealthStatus → Pulse → Pulse
unfolding should_attempt_recovery restart_gateway gateway_is_down
recover_gateway beat status p =
    if not (should_attempt_recovery "gateway" p)
    then p
    else if beat.enable_restart
    then restart_gateway beat status p
    else gateway_is_down beat status p

-- The recoveries that only send an alert.
unfoldable pub recover_by_alert :
    Beat
    → (component : String) → AlertSeverity
    → (message : String) → (details : Dict String) → Pulse
    → Pulse
unfolding should_attempt_recovery send_custom_alert record_recovery_attempt
recover_by_alert beat component severity message details p =
    if not (should_attempt_recovery component p)
    then p
    else record_recovery_attempt component
        (send_custom_alert beat severity message (("component", component) ∷ details) p)

unfoldable pub recover_redis : Beat → HealthStatus → Pulse → Pulse
unfolding recover_by_alert
recover_redis beat status =
    recover_by_alert beat "redis" critical
      "Redis is unreachable. Check if Redis service is running." (("error", status.message) ∷ [])

unfoldable pub recover_postgres : Beat → HealthStatus → Pulse → Pulse
unfolding recover_by_alert
recover_postgres beat status =
    recover_by_alert beat "postgres" critical
      "PostgreSQL is unreachable. Check if database service is running."
      (("error", status.message) ∷ [])

unfoldable pub detail : String → HealthStatus → String
unfolding lookup
detail key status = get_or (lookup key status.details) "0"

unfoldable pub recover_agents : Beat → HealthStatus → Pulse → Pulse
unfolding recover_by_alert detail
recover_agents beat status =
    let stale_count = detail "stale_work_orders" status in
    recover_by_alert beat "agents" warning
      ("Detected " ⁀ stale_count ⁀ " stale work order(s). Agents may be stuck.")
      (("stale_work_orders", stale_count)
        ∷ ("action", "Monitor or manually cancel stuck work orders")
        ∷ [])

unfoldable pub recover_budget : Beat → HealthStatus → Pulse → Pulse
unfolding recover_by_alert detail
recover_budget beat status =
    recover_by_alert beat "budget" critical
      "Daily token budget exceeded. Consider pausing operations or increasing budget."
      (("tokens_used", detail "tokens_used" status)
        ∷ ("tokens_limit", detail "tokens_limit" status)
        ∷ [])

unfoldable pub after_cleanup : Beat → (usage_pct : String) → Result ℕ × Pulse → Pulse
unfolding send_custom_alert record_recovery_attempt decimal
after_cleanup beat usage_pct (ok freed_mb, p) = record_recovery_attempt "disk" (
    send_custom_alert beat warning
      ("Disk usage was at " ⁀ usage_pct ⁀ "%. Cleaned " ⁀ decimal freed_mb ⁀ " MB.")
      (("component", "disk") ∷ ("freed_mb", decimal freed_mb) ∷ ("usage_pct", usage_pct) ∷ []) p)
after_cleanup beat usage_pct (err e, p) =
    send_custom_alert beat critical
      ("Disk usage critical (" ⁀ usage_pct ⁀ "%) and automatic cleanup failed.")
      (("component", "disk") ∷ ("usage_pct", usage_pct) ∷ []) p

unfoldable pub recover_disk : Beat → HealthStatus → Pulse → Pulse
unfolding should_attempt_recovery after_cleanup cleanup detail
recover_disk beat status p =
    if not (should_attempt_recovery "disk" p)
    then p
    else after_cleanup beat (detail "usage_pct" status) (cleanup beat p)

unfoldable pub when : Bool → (Pulse → Pulse) → Pulse → Pulse
when true act p = act p
when false act p = p

-- RecoveryManager.process_health
unfoldable pub recover_health : Beat → SystemHealth → Pulse → Pulse
unfolding when recover_gateway recover_redis recover_postgres recover_agents recover_disk
    recover_budget
recover_health beat health p =
    if not beat.enable_auto_recovery
    then p
    else when (is_critical health.budget) (recover_budget beat health.budget) (
        when (is_critical health.disk) (recover_disk beat health.disk) (
          when (health.agents.status == "degraded") (recover_agents beat health.agents) (
            when (is_critical health.postgres) (recover_postgres beat health.postgres) (
              when (is_critical health.redis) (recover_redis beat health.redis)
                (when (is_critical health.gateway) (recover_gateway beat health.gateway) p)))))

unfoldable pub reset_recovery_attempts : Pulse → Pulse
reset_recovery_attempts p = record p { recovery_attempts = [] }
