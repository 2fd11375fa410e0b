-- ===== src/Heartbeat/Recovery/Keeps.antt =====
-- A property that the recovery keeps, since each of its actions keeps it.
use nexus_ai_team.Prelude.{
  ◌≡◌, refl, ◌∙◌, arith, ℕ, String, Bool, true, false, not, ◌==◌, ◌&&◌, ◌∷◌, inl, inr, Bool-cases,
  if◌then◌else◌,
}
use nexus_ai_team.Prelude.Dict.{Dict}
use nexus_ai_team.Effects.{Result, ok, err}
use nexus_ai_team.Heartbeat.Monitor.{HealthStatus, SystemHealth, is_critical}
use nexus_ai_team.Heartbeat.Alerts.{
  AlertSeverity, warning, Pulse, Beat, send_limited, send_custom_alert, is_configured,
  should_send_alert, post_alert,
}
use nexus_ai_team.Heartbeat.Recovery.{
  should_attempt_recovery, record_recovery_attempt, gateway_is_down, restart_gateway,
  recover_gateway, recover_by_alert, recover_redis, recover_postgres, recover_agents,
  recover_budget, recover_disk, after_cleanup, when, recover_health,
}
use nexus_ai_team.Heartbeat.Recovery.Cleanup.{cleanup}
use nexus_ai_team.Heartbeat.Recovery.Frame.{IsFrame, cleanup-IsFrame}

limited-attempts :
    (beat : Beat) (t : String) (f : ℕ → String) (p : Pulse)
    → (send_limited beat t f p).recovery_attempts ≡ p.recovery_attempts
unfolding send_limited should_send_alert post_alert
limited-attempts beat t f p = ground arith

pub custom-attempts :
    (beat : Beat) (severity : AlertSeverity) (message : String) (details : Dict String) (p : Pulse)
    → (send_custom_alert beat severity message details p).recovery_attempts ≡ p.recovery_attempts
unfolding send_custom_alert
custom-attempts beat severity message details p =
    elim (Bool-cases (beat.enable_telegram && is_configured beat)) [
      | inl y ↦ rw y (search limited-attempts)
      | inr n ↦ rw n
    ]

-- `I` is kept by alerts, by what leaves the alerts and the attempts as they were, by the count of an
-- attempt that may be made, and by a restart of the gateway that may be tried.
module _ (beat : Beat) (I : Pulse → Type 0) (framed : (p q : Pulse) → IsFrame p q → I p → I q)
    (alerted : (severity : AlertSeverity) (message : String) (details : Dict String) (p : Pulse)
      → I p
      → I (send_custom_alert beat severity message details p))
    (counted : (component : String) (p q : Pulse)
      → should_attempt_recovery component p ≡ true
      → q.recovery_attempts ≡ p.recovery_attempts
      → I q
      → I (record_recovery_attempt component q))
    (restarting : (status : HealthStatus) (p : Pulse)
      → should_attempt_recovery "gateway" p ≡ true
      → I p
      → I (restart_gateway beat status p)) where
  down_kept : (status : HealthStatus) (p : Pulse) → I p → I (gateway_is_down beat status p)
  unfolding gateway_is_down
  down_kept status p h = search alerted

  gateway_kept : (status : HealthStatus) (p : Pulse) → I p → I (recover_gateway beat status p)
  unfolding recover_gateway
  gateway_kept status p h = elim (Bool-cases (should_attempt_recovery "gateway" p)) [
    | inl y ↦ elim (Bool-cases beat.enable_restart) [
      | inl r ↦ rw (y, r) (restarting status p y h)
      | inr n ↦ rw (y, n) (down_kept status p h)
    ]
    | inr n ↦ rw n h
  ]

  noted_kept :
      (component : String) (severity : AlertSeverity) (message : String) (details : Dict String)
      (p q : Pulse)
      → should_attempt_recovery component p ≡ true
      → q.recovery_attempts ≡ p.recovery_attempts
      → I q
      → I (record_recovery_attempt component (send_custom_alert beat severity message details q))
  noted_kept component severity message details p q y e h =
      counted component p (send_custom_alert beat severity message details q) y
        (custom-attempts beat severity message details q ∙ e) (alerted severity message details q h)

  notice_kept :
      (component : String) (severity : AlertSeverity) (message : String) (details : Dict String)
      (p : Pulse)
      → I p
      → I (recover_by_alert beat component severity message details p)
  unfolding recover_by_alert
  notice_kept component severity message details p h =
      elim (Bool-cases (should_attempt_recovery component p)) [
        | inl y ↦ rw y (
            noted_kept component severity message (("component", component) ∷ details) p p y refl h)
        | inr n ↦ rw n h
      ]

  cleaned_kept :
      (usage_pct : String) (p : Pulse) (r : Result ℕ × Pulse)
      → should_attempt_recovery "disk" p ≡ true
      → r.1.recovery_attempts ≡ p.recovery_attempts
      → I r.1
      → I (after_cleanup beat usage_pct r)
  unfolding after_cleanup
  cleaned_kept usage_pct p (ok freed_mb, q) y e h =
      let noted : (message : String) (details : Dict String)
          → I (record_recovery_attempt "disk" (send_custom_alert beat warning message details q)) =
        λ message details. noted_kept "disk" warning message details p q y e h in
      search noted
  cleaned_kept usage_pct p (err x, q) y e h = search alerted

  disk_kept : (status : HealthStatus) (p : Pulse) → I p → I (recover_disk beat status p)
  unfolding recover_disk
  disk_kept status p h = elim (Bool-cases (should_attempt_recovery "disk" p)) [
    | inl y ↦
        let frame = cleanup-IsFrame beat p in
        rw y (cleaned_kept _ p (cleanup beat p) y frame.recovery_attempts (framed p _ frame h))
    | inr n ↦ rw n h
  ]

  when_kept :
      (b : Bool) (act : Pulse → Pulse) (p : Pulse)
      → ((q : Pulse) → I q → I (act q))
      → I p
      → I (when b act p)
  unfolding when
  when_kept true act p kept h = kept p h
  when_kept false act p kept h = h

  unless_kept : (b : Bool) (p q : Pulse) → I p → I q → I (if not b then p else q)
  unless_kept true p q hp hq = hq
  unless_kept false p q hp hq = hp

  redis_kept : (status : HealthStatus) (p : Pulse) → I p → I (recover_redis beat status p)
  unfolding recover_redis
  redis_kept status p h = search notice_kept

  postgres_kept : (status : HealthStatus) (p : Pulse) → I p → I (recover_postgres beat status p)
  unfolding recover_postgres
  postgres_kept status p h = search notice_kept

  agents_kept : (status : HealthStatus) (p : Pulse) → I p → I (recover_agents beat status p)
  unfolding recover_agents
  agents_kept status p h = search notice_kept

  budget_kept : (status : HealthStatus) (p : Pulse) → I p → I (recover_budget beat status p)
  unfolding recover_budget
  budget_kept status p h = search notice_kept

  pub recover_kept : (health : SystemHealth) (p : Pulse) → I p → I (recover_health beat health p)
  unfolding recover_health
  recover_kept health p h = unless_kept beat.enable_auto_recovery p _ h (
      when_kept (is_critical health.budget) (recover_budget beat health.budget) _
        (budget_kept health.budget)
        (when_kept (is_critical health.disk) (recover_disk beat health.disk) _
          (disk_kept health.disk)
          (when_kept (health.agents.status == "degraded") (recover_agents beat health.agents) _
            (agents_kept health.agents)
            (when_kept (is_critical health.postgres) (recover_postgres beat health.postgres) _
              (postgres_kept health.postgres)
              (when_kept (is_critical health.redis) (recover_redis beat health.redis) _
                (redis_kept health.redis)
                (when_kept (is_critical health.gateway) (recover_gateway beat health.gateway) p
                  (gateway_kept health.gateway) h))))))
