-- ===== src/Heartbeat/Monitor.antt =====
-- heartbeat/monitor.py. What the probes of the other systems bring is an argument. The time of each
-- check, which only the report as JSON shows, is left out.
use nexus_ai_team.Prelude.{
  ℕ, ◌*◌, ltb, leb, nat_eq, String, Bool, not, ◌==◌, List, [], ◌∷◌, any, if◌then◌else◌,
}
use nexus_ai_team.Prelude.Text.{◌⁀◌, decimal}
use nexus_ai_team.Prelude.Dict.{Dict}

pub record HealthStatus : Type 0 where
  pub component : String
  pub status : String
  pub message : String
  pub details : Dict String

abbrev pub is_healthy : HealthStatus → Bool
is_healthy h = h.status == "healthy"

abbrev pub is_critical : HealthStatus → Bool
is_critical h = h.status == "critical"

pub record SystemHealth : Type 0 where
  pub gateway : HealthStatus
  pub redis : HealthStatus
  pub postgres : HealthStatus
  pub agents : HealthStatus
  pub gpu : HealthStatus
  pub budget : HealthStatus
  pub disk : HealthStatus

abbrev pub statuses : SystemHealth → List HealthStatus
statuses h = h.gateway ∷ h.redis ∷ h.postgres ∷ h.agents ∷ h.gpu ∷ h.budget ∷ h.disk ∷ []

unfoldable pub system_is_healthy : SystemHealth → Bool
system_is_healthy h = not (any (λ s. not (is_healthy s)) (statuses h))

unfoldable pub has_critical_issues : SystemHealth → Bool
has_critical_issues h = any is_critical (statuses h)

-- An HTTP request: the code and the fields of the body, no answer in time, or another exception.
pub data HttpReply : Type 0 where
  answered : (status : ℕ) (body : Dict String) → HttpReply
  timed_out : HttpReply
  unreachable : String → HttpReply

-- A probe that brings a number, or the text of its exception.
pub data Reading : Type 0 where
  read : ℕ → Reading
  broken : String → Reading

pub data DiskReading : Type 0 where
  usage : (tenths_of_percent : ℕ) (used_gb total_gb shown_percent : String) → DiskReading
  unreadable : String → DiskReading

-- One round of probes. `models` is the number of models in a body of Ollama, `shown_memory` the
-- megabytes of a number of bytes as text, `shown_percent` the percentage of two numbers as text.
pub record Probes : Type 0 where
  pub gateway : HttpReply
  pub redis_memory : Reading
  pub work_orders : Reading
  pub stale_work_orders : Reading
  pub ollama : HttpReply
  pub models : Dict String → ℕ
  pub tokens_used : Reading
  pub disk : DiskReading
  pub shown_memory : ℕ → String
  pub shown_percent : ℕ → ℕ → String

abbrev report : (component status message : String) → Dict String → HealthStatus
report component status message details = record {
  component = component;
  status = status;
  message = message;
  details = details;
}

check_gateway : HttpReply → HealthStatus
unfolding decimal
check_gateway (answered status body) =
    if nat_eq status 200
    then report "gateway" "healthy" "Gateway responding" body
    else report "gateway" "degraded" ("Gateway returned status " ⁀ decimal status) []
check_gateway timed_out = report "gateway" "critical" "Gateway timeout" []
check_gateway (unreachable e) = report "gateway" "critical" ("Gateway unreachable: " ⁀ e) []

check_redis : (shown_memory : ℕ → String) → Reading → HealthStatus
check_redis shown_memory (read bytes) =
    report "redis" "healthy" "Redis connected" (("used_memory_mb", shown_memory bytes) ∷ [])
check_redis shown_memory (broken e) = report "redis" "critical" ("Redis connection failed: " ⁀ e) []

unfoldable pub check_postgres : (postgres_url : String) → Reading → HealthStatus
unfolding decimal
check_postgres String.[] reading = report "postgres" "unknown" "PostgreSQL URL not configured" []
check_postgres (String.◌∷◌ c url) (read count) =
    report "postgres" "healthy" "PostgreSQL connected" (("work_orders", decimal count) ∷ [])
check_postgres (String.◌∷◌ c url) (broken e) =
    report "postgres" "critical" ("PostgreSQL connection failed: " ⁀ e) []

check_agents : (postgres_url : String) → Reading → HealthStatus
unfolding decimal
check_agents String.[] reading = report "agents" "unknown" "Cannot check agents without database" []
check_agents (String.◌∷◌ c url) (read stale_count) =
    if ltb 0 stale_count
    then report "agents" "degraded" (decimal stale_count ⁀ " agent(s) may be stuck")
        (("stale_work_orders", decimal stale_count) ∷ [])
    else report "agents" "healthy" "Agents active" []
check_agents (String.◌∷◌ c url) (broken e) =
    report "agents" "critical" ("Agent check failed: " ⁀ e) []

check_gpu : (models : Dict String → ℕ) → HttpReply → HealthStatus
unfolding decimal
check_gpu models (answered status body) =
    if nat_eq status 200
    then report "gpu" "healthy" ("Ollama available (" ⁀ decimal (models body) ⁀ " models)")
        (("model_count", decimal (models body)) ∷ [])
    else report "gpu" "degraded" "Ollama responded with error" []
check_gpu models timed_out = report "gpu" "unknown" "Ollama not available (optional)" []
check_gpu models (unreachable e) = report "gpu" "unknown" "Ollama not available (optional)" []

-- A limit of 0 is a division by zero.
check_budget :
    (postgres_url : String)
    → (token_budget_limit : ℕ) → (shown_percent : ℕ → ℕ → String) → Reading
    → HealthStatus
unfolding decimal
check_budget String.[] limit shown_percent reading =
    report "budget" "unknown" "Cannot check budget without database" []
check_budget (String.◌∷◌ c url) limit shown_percent (broken e) =
    report "budget" "critical" ("Budget check failed: " ⁀ e) []
check_budget (String.◌∷◌ c url) limit shown_percent (read tokens_used) =
    let details =
      ("tokens_used", decimal tokens_used)
      ∷ ("tokens_limit", decimal limit)
      ∷ ("usage_pct", shown_percent tokens_used limit)
      ∷ [] in
    if nat_eq limit 0
    then report "budget" "critical" "Budget check failed: division by zero" []
    else if leb limit tokens_used
    then report "budget" "critical" "Token budget exceeded" details
    else if leb (80 * limit) (100 * tokens_used)
    then report "budget" "degraded" "Token budget nearly exhausted" details
    else report "budget" "healthy" "Token budget OK" details

check_disk : DiskReading → HealthStatus
check_disk (unreadable e) = report "disk" "critical" ("Disk check failed: " ⁀ e) []
check_disk (usage tenths used_gb total_gb shown_percent) =
    let details =
      ("used_gb", used_gb) ∷ ("total_gb", total_gb) ∷ ("usage_pct", shown_percent) ∷ [] in
    if leb 950 tenths
    then report "disk" "critical" "Disk nearly full" details
    else if leb 850 tenths
    then report "disk" "degraded" "Disk usage high" details
    else report "disk" "healthy" "Disk usage OK" details

-- Each check catches its exceptions, so none of the seven raises.
unfoldable pub check_health :
    (postgres_url : String) → (token_budget_limit : ℕ) → Probes → SystemHealth
unfolding check_gateway check_redis check_postgres check_agents check_gpu check_budget check_disk
check_health postgres_url limit p = record {
  gateway = check_gateway p.gateway;
  redis = check_redis p.shown_memory p.redis_memory;
  postgres = check_postgres postgres_url p.work_orders;
  agents = check_agents postgres_url p.stale_work_orders;
  gpu = check_gpu p.models p.ollama;
  budget = check_budget postgres_url limit p.shown_percent p.tokens_used;
  disk = check_disk p.disk;
}
