-- ===== src/Heartbeat/Spacing.antt =====
-- The time between two alerts of one type.
use nexus_ai_team.Prelude.{
  ℕ, suc, ◌+◌, ◌-◌, ◌≤◌, ◌≡◌, subst, leb, String, Bool, true, false, ◌==◌, Option, none, some, List,
  [], ◌∷◌, All, All-mono, get_or, inl, inr, Bool-cases, if-elim, arith, eq_iff, if◌then◌else◌,
}
use nexus_ai_team.Prelude.Dict.{Dict, lookup, assign, lookup-assign}
use nexus_ai_team.Heartbeat.Monitor.{HealthStatus, SystemHealth, Probes}
use nexus_ai_team.Heartbeat.Alerts.{
  AlertSeverity, Post, Disk, Pulse, Beat, alert_cooldown, should_send_alert, post_alert,
  send_limited, send_telegram_alert, send_critical_alert, send_warning_alert, alert_health,
  send_custom_alert,
}
use nexus_ai_team.Heartbeat.Recovery.{
  record_recovery_attempt, restart_gateway, gateway_is_down, recover_health,
  reset_recovery_attempts,
}
use nexus_ai_team.Heartbeat.Recovery.Frame.{IsFrame}
use nexus_ai_team.Heartbeat.Recovery.Keeps.{recover_kept}
use nexus_ai_team.Heartbeat.Service.{handle, round, health_of, run_heartbeat_loop, started}

-- An earlier post of the same type is a whole cooldown earlier.
abbrev pub IsEarlier : Post → Post → Type 0
IsEarlier b a = a.alert_type ≡ b.alert_type → a.at + alert_cooldown ≤ b.at

-- Of the posts, the latest first.
abbrev pub IsSpaced : List Post → Type 0
IsSpaced [] = Unit
IsSpaced (b ∷ earlier) = All (IsEarlier b) earlier × IsSpaced earlier

last_of : String → Dict ℕ → ℕ
unfolding lookup
last_of t last = get_or (lookup t last) 0

abbrev IsCurrent : Dict ℕ → Post → Type 0
IsCurrent last a = a.at ≤ last_of a.alert_type last

record IsPaced (posts : List Post) (last : Dict ℕ) : Type 0 where
  spaced : IsSpaced posts
  current : All (IsCurrent last) posts

passes-le : (now last : ℕ) → leb alert_cooldown (now - last) ≡ true → last + alert_cooldown ≤ now
passes-le now last h = ground arith

last_of-assign :
    (t s : String) (now : ℕ) (last : Dict ℕ)
    → last_of s (assign t now last) ≡ (if t == s then now else last_of s last)
unfolding last_of
last_of-assign t s now last = elim (Bool-cases (t == s)) [
  | inl y ↦ rw (lookup-assign t s now last, y)
  | inr n ↦ rw (lookup-assign t s now last, n)
]

later-IsCurrent :
    (t : String) (now : ℕ) (last : Dict ℕ)
    → last_of t last ≤ now
    → (a : Post) → IsCurrent last a
    → IsCurrent (assign t now last) a
later-IsCurrent t now last le a h =
    rw (last_of-assign t a.alert_type now last) (ground (arith, le, h, eq_iff t a.alert_type))

new-IsEarlier :
    (t text : String) (now : ℕ) (last : Dict ℕ)
    → last_of t last + alert_cooldown ≤ now
    → (a : Post) → IsCurrent last a
    → IsEarlier (record { alert_type = t; at = now; text = text }) a
new-IsEarlier t text now last le a h same =
    omega (arith, le, subst (λ x. a.at ≤ last_of x last) same h)

now-IsPaced :
    (t : String) (now : ℕ) (posts : List Post) (last : Dict ℕ)
    → last_of t last + alert_cooldown ≤ now
    → IsPaced posts last
    → IsPaced posts (assign t now last)
now-IsPaced t now posts last le h = record {
  spaced = h.spaced;
  current = All-mono (later-IsCurrent t now last (omega (arith, le))) posts h.current;
}

post-IsPaced :
    (t text : String) (now : ℕ) (posts : List Post) (last : Dict ℕ)
    → last_of t last + alert_cooldown ≤ now
    → IsPaced posts last
    → IsPaced (record { alert_type = t; at = now; text = text } ∷ posts) (assign t now last)
post-IsPaced t text now posts last le h = record {
  spaced = (All-mono (new-IsEarlier t text now last le) posts h.current, h.spaced);
  current = (
    rw (last_of-assign t t now last) (ground (arith, eq_iff t t)),
    (now-IsPaced t now posts last le h).current,
  );
}

record IsCalm (p : Pulse) : Type 0 where
  paced : IsPaced p.posts p.last_alert

IsCalm-if : (b : Bool) (p q : Pulse) → IsCalm p → IsCalm q → IsCalm (if b then p else q)
IsCalm-if true p q hp hq = hp
IsCalm-if false p q hp hq = hq

posted-IsCalm :
    (t text : String) (now : ℕ) (p : Pulse)
    → last_of t p.last_alert + alert_cooldown ≤ now
    → IsCalm p
    → IsCalm (
        post_alert t now text
          (record p { clock_reads = suc p.clock_reads; last_alert = assign t now p.last_alert }))
unfolding post_alert
posted-IsCalm t text now p le h = record {
  paced = post-IsPaced t text now p.posts p.last_alert le h.paced;
}

module _ (beat : Beat) where
  should-IsCalm : (t : String) (p : Pulse) → IsCalm p → IsCalm (should_send_alert beat t p).1
  unfolding should_send_alert last_of
  should-IsCalm t p h =
      let now = beat.clock p.clock_reads in
      if-elim (λ (r : Bool × Pulse). IsCalm r.1) _ _ _
        (λ y. record { paced = now-IsPaced t now p.posts p.last_alert (passes-le now _ y) h.paced })
        (λ n. record { paced = h.paced })

  limited-IsCalm :
      (t : String) (f : ℕ → String) (p : Pulse) → IsCalm p → IsCalm (send_limited beat t f p)
  unfolding send_limited should_send_alert post_alert last_of
  limited-IsCalm t f p h =
      let now = beat.clock p.clock_reads in
      if-elim
        (λ (r : Bool × Pulse).
          IsCalm (if r.0 then post_alert t now (f r.1.clock_reads) r.1 else r.1))
        _ _ _ (λ y. posted-IsCalm t (f (suc p.clock_reads)) now p (passes-le now _ y) h)
        (λ n. record { paced = h.paced })

  telegram-IsCalm :
      (severity : AlertSeverity) (components : List HealthStatus) (p : Pulse)
      → IsCalm p
      → IsCalm (send_telegram_alert beat severity components p)
  unfolding send_telegram_alert
  telegram-IsCalm severity components p h = search (IsCalm-if, limited-IsCalm)

  critical-IsCalm :
      (health : SystemHealth) (p : Pulse) → IsCalm p → IsCalm (send_critical_alert beat health p)
  unfolding send_critical_alert
  critical-IsCalm health p h = search (IsCalm-if, telegram-IsCalm)

  warning-IsCalm :
      (health : SystemHealth) (p : Pulse) → IsCalm p → IsCalm (send_warning_alert beat health p)
  unfolding send_warning_alert
  warning-IsCalm health p h = search (IsCalm-if, telegram-IsCalm, should-IsCalm)

  alert-IsCalm :
      (health : SystemHealth) (p : Pulse) → IsCalm p → IsCalm (alert_health beat health p)
  unfolding alert_health
  alert-IsCalm health p h = search (IsCalm-if, critical-IsCalm, warning-IsCalm)

  custom-IsCalm :
      (severity : AlertSeverity) (message : String) (details : Dict String) (p : Pulse)
      → IsCalm p
      → IsCalm (send_custom_alert beat severity message details p)
  unfolding send_custom_alert
  custom-IsCalm severity message details p h = search (IsCalm-if, limited-IsCalm)

  framed-IsCalm : (p q : Pulse) → IsFrame p q → IsCalm p → IsCalm q
  framed-IsCalm p q f h = record { paced = rw (f.posts, f.last_alert) h.paced }

  counted-IsCalm :
      (component : String) (p : Pulse) → IsCalm p → IsCalm (record_recovery_attempt component p)
  unfolding record_recovery_attempt
  counted-IsCalm component p h = record { paced = h.paced }

  called-IsCalm : (p : Pulse) → IsCalm p → IsCalm (record p { restart_calls = suc p.restart_calls })
  called-IsCalm p h = record { paced = h.paced }

  done-IsCalm :
      (p : Pulse)
      → IsCalm p
      → IsCalm (record p { restart_calls = suc p.restart_calls; restarted = suc p.restarted })
  done-IsCalm p h = record { paced = h.paced }

  restarting-IsCalm :
      (status : HealthStatus) (p : Pulse) → IsCalm p → IsCalm (restart_gateway beat status p)
  unfolding restart_gateway gateway_is_down
  restarting-IsCalm status p h =
      search (IsCalm-if, counted-IsCalm, custom-IsCalm, called-IsCalm, done-IsCalm)

  recover-IsCalm :
      (health : SystemHealth) (p : Pulse) → IsCalm p → IsCalm (recover_health beat health p)
  recover-IsCalm =
      recover_kept beat IsCalm framed-IsCalm custom-IsCalm
        (λ component p q _ _. counted-IsCalm component q) (λ status p _. restarting-IsCalm status p)

  reset-IsCalm : (p : Pulse) → IsCalm p → IsCalm (reset_recovery_attempts p)
  unfolding reset_recovery_attempts
  reset-IsCalm p h = record { paced = h.paced }

  handle-IsCalm : (health : SystemHealth) (p : Pulse) → IsCalm p → IsCalm (handle beat health p)
  unfolding handle
  handle-IsCalm health p h = search (IsCalm-if, reset-IsCalm, recover-IsCalm, alert-IsCalm)

  loop-IsCalm :
      (rounds : List (Option Probes)) (p : Pulse)
      → IsCalm p
      → IsCalm (run_heartbeat_loop beat rounds p)
  unfolding run_heartbeat_loop round
  loop-IsCalm [] p h = h
  loop-IsCalm (none ∷ rounds) p h = loop-IsCalm rounds p h
  loop-IsCalm (some probes ∷ rounds) p h =
      loop-IsCalm rounds _ (handle-IsCalm (health_of beat probes) p h)

  -- Whatever the probes bring and the clock shows, in any number of rounds of the service no two
  -- alerts of one type are let through to Telegram at readings of the clock that are less than 300
  -- seconds apart.
  pub alerts-IsSpaced :
      (disk : Disk) (rounds : List (Option Probes))
      → IsSpaced (run_heartbeat_loop beat rounds (started disk)).posts
  alerts-IsSpaced disk rounds =
      (loop-IsCalm rounds (started disk)
        (record { paced = record { spaced = tt; current = tt } })).paced.spaced
