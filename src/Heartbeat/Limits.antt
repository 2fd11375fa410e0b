-- ===== src/Heartbeat/Limits.antt =====
-- How often the recovery is tried, and when the count starts again.
use nexus_ai_team.Prelude.{
  ℕ, suc, ◌≤◌, ◌≡◌, refl, ap, subst, String, Bool, true, false, ◌==◌, Option, none, some, List, [],
  ◌∷◌, inl, inr, Bool-cases, ◌∙◌, arith, eq_iff, if◌then◌else◌,
}
use nexus_ai_team.Prelude.Dict.{Dict, lookup-assign}
use nexus_ai_team.Heartbeat.Monitor.{
  HealthStatus, SystemHealth, Probes, check_health, check_postgres, system_is_healthy,
}
use nexus_ai_team.Heartbeat.Alerts.{
  AlertSeverity, warning, Disk, Pulse, Beat, should_send_alert, post_alert, send_limited,
  send_telegram_alert, send_critical_alert, send_warning_alert, alert_health, send_custom_alert,
}
use nexus_ai_team.Heartbeat.Recovery.{
  attempt_count, should_attempt_recovery, record_recovery_attempt, restart_gateway, gateway_is_down,
  recover_health, reset_recovery_attempts,
}
use nexus_ai_team.Heartbeat.Recovery.Frame.{IsFrame}
use nexus_ai_team.Heartbeat.Recovery.Keeps.{recover_kept}
use nexus_ai_team.Heartbeat.Service.{handle, round, health_of, run_heartbeat_loop, started}

-- Each successful restart is an attempt, and no component has more than three attempts.
record IsLimited (p : Pulse) : Type 0 where
  restarts : p.restarted ≤ attempt_count "gateway" p
  few : (component : String) → attempt_count component p ≤ 3

-- The attempts and the restarts are those of another state.
record IsSame (p q : Pulse) : Type 0 where
  attempts : q.recovery_attempts ≡ p.recovery_attempts
  restarted : q.restarted ≡ p.restarted

same-IsLimited : (p q : Pulse) → IsSame p q → IsLimited p → IsLimited q
unfolding attempt_count
same-IsLimited p q s h = record {
  restarts = rw (s.restarted, s.attempts) h.restarts;
  few = λ component. rw s.attempts (h.few component);
}

IsSame-trans : (p q r : Pulse) → IsSame p q → IsSame q r → IsSame p r
IsSame-trans p q r f g = record {
  attempts = g.attempts ∙ f.attempts;
  restarted = g.restarted ∙ f.restarted;
}

IsSame-if : (b : Bool) (p q r : Pulse) → IsSame p q → IsSame p r → IsSame p (if b then q else r)
IsSame-if true p q r hq hr = hq
IsSame-if false p q r hq hr = hr

one_more :
    (p c : Pulse)
    → c.recovery_attempts ≡ p.recovery_attempts
    → p.restarted ≤ attempt_count "gateway" p
    → suc p.restarted ≤ suc (attempt_count "gateway" c)
unfolding attempt_count
one_more p c e h = rw e (omega (arith, h))

same_few :
    (p c : Pulse)
    → c.recovery_attempts ≡ p.recovery_attempts
    → ((component : String) → attempt_count component p ≤ 3)
    → (component : String) → attempt_count component c ≤ 3
unfolding attempt_count
same_few p c e few component = rw e (few component)

started-IsLimited : (disk : Disk) → IsLimited (started disk)
unfolding attempt_count
started-IsLimited disk = record { restarts = omega arith; few = λ component. omega arith }

IsSame-refl : (p : Pulse) → IsSame p p
IsSame-refl p = record { attempts = refl; restarted = refl }

module _ (beat : Beat) where
  should-IsSame : (t : String) (p : Pulse) → IsSame p (should_send_alert beat t p).1
  unfolding should_send_alert
  should-IsSame t p = record { attempts = ground arith; restarted = ground arith }

  limited-IsSame : (t : String) (f : ℕ → String) (p : Pulse) → IsSame p (send_limited beat t f p)
  unfolding send_limited should_send_alert post_alert
  limited-IsSame t f p = record { attempts = ground arith; restarted = ground arith }

  custom-IsSame :
      (severity : AlertSeverity) (message : String) (details : Dict String) (p : Pulse)
      → IsSame p (send_custom_alert beat severity message details p)
  unfolding send_custom_alert
  custom-IsSame severity message details p = search (IsSame-if, limited-IsSame, IsSame-refl)

  telegram-IsSame :
      (severity : AlertSeverity) (components : List HealthStatus) (p : Pulse)
      → IsSame p (send_telegram_alert beat severity components p)
  unfolding send_telegram_alert
  telegram-IsSame severity components p = search (IsSame-if, limited-IsSame, IsSame-refl)

  critical-IsSame :
      (health : SystemHealth) (p : Pulse) → IsSame p (send_critical_alert beat health p)
  unfolding send_critical_alert
  critical-IsSame health p = search (IsSame-if, telegram-IsSame, IsSame-refl)

  warned-IsSame :
      (severity : AlertSeverity) (components : List HealthStatus) (p : Pulse)
      → IsSame p
          (send_telegram_alert beat severity components (should_send_alert beat "warning" p).1)
  warned-IsSame severity components p =
      IsSame-trans p _ _ (should-IsSame "warning" p) (telegram-IsSame severity components _)

  warning-IsSame : (health : SystemHealth) (p : Pulse) → IsSame p (send_warning_alert beat health p)
  unfolding send_warning_alert
  warning-IsSame health p = search (IsSame-if, warned-IsSame, should-IsSame, IsSame-refl)

  alert-IsSame : (health : SystemHealth) (p : Pulse) → IsSame p (alert_health beat health p)
  unfolding alert_health
  alert-IsSame health p = search (IsSame-if, critical-IsSame, warning-IsSame, IsSame-refl)

  framed-IsLimited : (p q : Pulse) → IsFrame p q → IsLimited p → IsLimited q
  framed-IsLimited p q f =
      same-IsLimited p q (record { attempts = f.recovery_attempts; restarted = f.restarted })

  custom-IsLimited :
      (severity : AlertSeverity) (message : String) (details : Dict String) (p : Pulse)
      → IsLimited p
      → IsLimited (send_custom_alert beat severity message details p)
  custom-IsLimited severity message details p =
      same-IsLimited p _ (custom-IsSame severity message details p)

  recorded_count :
      (component other : String) (p : Pulse)
      → attempt_count other (record_recovery_attempt component p)
        ≡ (if component == other then suc (attempt_count other p) else attempt_count other p)
  unfolding attempt_count record_recovery_attempt
  recorded_count component other p = elim (Bool-cases (component == other)) [
    | inl y ↦
        rw (lookup-assign component other (suc (attempt_count component p)) p.recovery_attempts, y)
          (ap (λ c. suc (attempt_count c p)) ((eq_iff component other).0 y))
    | inr n ↦
        rw (lookup-assign component other (suc (attempt_count component p)) p.recovery_attempts, n)
  ]

  recorded-restarted :
      (component : String) (p : Pulse)
      → (record_recovery_attempt component p).restarted ≡ p.restarted
  unfolding record_recovery_attempt
  recorded-restarted component p = refl

  may-attempt :
      (component : String) (p q : Pulse)
      → should_attempt_recovery component p ≡ true
      → q.recovery_attempts ≡ p.recovery_attempts
      → suc (attempt_count component q) ≤ 3
  unfolding should_attempt_recovery attempt_count
  may-attempt component p q y e = rw e (ground (arith, y))

  counted_few :
      (component other : String) (q : Pulse)
      → suc (attempt_count component q) ≤ 3
      → attempt_count other q ≤ 3
      → (if component == other then suc (attempt_count other q) else attempt_count other q) ≤ 3
  counted_few component other q may few = elim (Bool-cases (component == other)) [
    | inl y ↦ rw y (subst (λ c. suc (attempt_count c q) ≤ 3) ((eq_iff component other).0 y) may)
    | inr n ↦ rw n few
  ]

  counted-IsLimited :
      (component : String) (p q : Pulse)
      → should_attempt_recovery component p ≡ true
      → q.recovery_attempts ≡ p.recovery_attempts
      → IsLimited q
      → IsLimited (record_recovery_attempt component q)
  counted-IsLimited component p q y e h = record {
    restarts =
        rw (recorded_count component "gateway" q, recorded-restarted component q)
          (ground (arith, h.restarts));
    few = λ other.
        rw (recorded_count component other q)
          (counted_few component other q (may-attempt component p q y e) (h.few other));
  }

  done-IsLimited :
      (p c : Pulse)
      → should_attempt_recovery "gateway" p ≡ true
      → c.recovery_attempts ≡ p.recovery_attempts
      → c.restarted ≡ suc p.restarted
      → IsLimited p
      → IsLimited (record_recovery_attempt "gateway" c)
  done-IsLimited p c y e r h = record {
    restarts = ground (
      arith,
      recorded-restarted "gateway" c,
      r,
      one_more p c e h.restarts,
      recorded_count "gateway" "gateway" c,
    );
    few = λ other. rw (recorded_count "gateway" other c) (
        counted_few "gateway" other c (may-attempt "gateway" p c y e) (same_few p c e h.few other));
  }

  restarted-IsLimited :
      (message : String) (details : Dict String) (p : Pulse)
      → should_attempt_recovery "gateway" p ≡ true
      → IsLimited p
      → IsLimited (
          record_recovery_attempt "gateway" (
            send_custom_alert beat warning message details
              (record p { restart_calls = suc p.restart_calls; restarted = suc p.restarted })))
  restarted-IsLimited message details p y h =
      let q = record p { restart_calls = suc p.restart_calls; restarted = suc p.restarted } in
      let s = custom-IsSame warning message details q in
      done-IsLimited p (send_custom_alert beat warning message details q) y s.attempts s.restarted h

  called-IsLimited :
      (p : Pulse) → IsLimited p → IsLimited (record p { restart_calls = suc p.restart_calls })
  called-IsLimited p = same-IsLimited p _ (record { attempts = refl; restarted = refl })

  failed-IsLimited :
      (status : HealthStatus) (p : Pulse) → IsLimited p → IsLimited (gateway_is_down beat status p)
  unfolding gateway_is_down
  failed-IsLimited status p h = search custom-IsLimited

  IsLimited-if :
      (b : Bool) (p q : Pulse) → IsLimited p → IsLimited q → IsLimited (if b then p else q)
  IsLimited-if true p q hp hq = hp
  IsLimited-if false p q hp hq = hq

  restarting-IsLimited :
      (status : HealthStatus) (p : Pulse)
      → should_attempt_recovery "gateway" p ≡ true
      → IsLimited p
      → IsLimited (restart_gateway beat status p)
  unfolding restart_gateway
  restarting-IsLimited status p y h =
      search (IsLimited-if, restarted-IsLimited, failed-IsLimited, called-IsLimited)

  recover-IsLimited :
      (health : SystemHealth) (p : Pulse) → IsLimited p → IsLimited (recover_health beat health p)
  recover-IsLimited =
      recover_kept beat IsLimited framed-IsLimited custom-IsLimited counted-IsLimited
        restarting-IsLimited

  alert-IsLimited :
      (health : SystemHealth) (p : Pulse) → IsLimited p → IsLimited (alert_health beat health p)
  alert-IsLimited health p = same-IsLimited p _ (alert-IsSame health p)

  unreset : (b : Bool) (p q : Pulse) → b ≡ false → IsLimited q → IsLimited (if b then p else q)
  unreset b p q e h = rw e h

  handle-IsLimited :
      (health : SystemHealth) (p : Pulse)
      → system_is_healthy health ≡ false
      → IsLimited p
      → IsLimited (handle beat health p)
  unfolding handle
  handle-IsLimited health p unwell h =
      let q = recover_health beat health (alert_health beat health p) in
      unreset (system_is_healthy health) (reset_recovery_attempts q) q unwell
        (recover-IsLimited health _ (alert-IsLimited health p h))

  module _ (no_database : beat.postgres_url ≡ "") where
    unhealthy : (probes : Probes) → system_is_healthy (health_of beat probes) ≡ false
    unfolding system_is_healthy health_of check_health check_postgres
    unhealthy probes = rw no_database (ground arith)

    round-IsLimited : (o : Option Probes) (p : Pulse) → IsLimited p → IsLimited (round beat o p)
    unfolding round
    round-IsLimited none p h = h
    round-IsLimited (some probes) p h =
        handle-IsLimited (health_of beat probes) p (unhealthy probes) h

    loop-IsLimited :
        (rounds : List (Option Probes)) (p : Pulse)
        → IsLimited p
        → IsLimited (run_heartbeat_loop beat rounds p)
    unfolding run_heartbeat_loop
    loop-IsLimited [] p h = h
    loop-IsLimited (o ∷ rounds) p h = loop-IsLimited rounds _ (round-IsLimited o p h)

    -- Without the address of a database the system never counts as healthy, and so the attempts are
    -- never forgotten: in all its rounds the service counts at most three attempts for each
    -- component, and restarts the gateway at most three times.
    pub restarts_limited :
        (disk : Disk) (rounds : List (Option Probes)) (component : String)
        → (attempt_count component (run_heartbeat_loop beat rounds (started disk)) ≤ 3)
          × ((run_heartbeat_loop beat rounds (started disk)).restarted ≤ 3)
    restarts_limited disk rounds component =
        let h = loop-IsLimited rounds (started disk) (started-IsLimited disk) in
        (h.few component, omega (arith, h.restarts, h.few "gateway"))
