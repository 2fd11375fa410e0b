-- ===== src/Heartbeat/Service.antt =====
-- heartbeat/service.py: the loop that hands each report to the alerts and to the recovery.
use nexus_ai_team.Prelude.{Option, none, some, List, [], ◌∷◌, if◌then◌else◌}
use nexus_ai_team.Heartbeat.Monitor.{SystemHealth, Probes, check_health, system_is_healthy}
use nexus_ai_team.Heartbeat.Alerts.{Pulse, Beat, Disk, alert_health}
use nexus_ai_team.Heartbeat.Recovery.{recover_health, reset_recovery_attempts}

-- A report of the monitor.
unfoldable pub health_of : Beat → Probes → SystemHealth
unfolding check_health
health_of beat probes = check_health beat.postgres_url beat.token_budget_limit probes

unfoldable pub handle : Beat → SystemHealth → Pulse → Pulse
unfolding alert_health recover_health reset_recovery_attempts system_is_healthy
handle beat health p =
    let q = recover_health beat health (alert_health beat health p) in
    if system_is_healthy health then reset_recovery_attempts q else q

-- A round of the loop, with what the last report was made of, if there is one yet.
unfoldable pub round : Beat → Option Probes → Pulse → Pulse
unfolding handle health_of
round beat none p = p
round beat (some probes) p = handle beat (health_of beat probes) p

unfoldable pub run_heartbeat_loop : Beat → List (Option Probes) → Pulse → Pulse
unfolding round
run_heartbeat_loop beat [] p = p
run_heartbeat_loop beat (o ∷ os) p = run_heartbeat_loop beat os (round beat o p)

abbrev pub started : Disk → Pulse
started disk = record {
  last_alert = [];
  recovery_attempts = [];
  posts = [];
  restarted = 0;
  restart_calls = 0;
  unlink_calls = 0;
  clock_reads = 0;
  disk = disk;
}
