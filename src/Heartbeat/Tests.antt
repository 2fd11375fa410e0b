-- ===== src/Heartbeat/Tests.antt =====
-- A service whose gateway is down, without and with a bot.
use nexus_ai_team.Prelude.{
  ◌+◌, ◌*◌, ◌≤◌, ◌≡◌, refl, true, Option, none, some, List, [], ◌∷◌, length,
}
use nexus_ai_team.Heartbeat.Monitor.{Probes, timed_out, unreachable, read, usage}
use nexus_ai_team.Heartbeat.Alerts.{Disk, Beat}
use nexus_ai_team.Heartbeat.Recovery.{attempt_count}
use nexus_ai_team.Heartbeat.Service.{run_heartbeat_loop, started, round, handle, health_of}
use nexus_ai_team.Heartbeat.Spacing.{IsSpaced, alerts-IsSpaced}
use nexus_ai_team.Heartbeat.Limits.{restarts_limited}

-- The clock starts at the time 1000 s and shows a second more at each reading.
abbrev beat : Beat
beat = record {
  telegram_bot_token = "token";
  telegram_chat_id = "chat";
  enable_telegram = true;
  enable_auto_recovery = true;
  enable_restart = true;
  postgres_url = "";
  token_budget_limit = 1000000;
  clock = λ n. 1000000000 + 1000000 * n;
  stamp = λ n. "now";
  restarts = λ n. true;
  unlinks = λ n. true;
  local_clock = λ t. t;
}

abbrev gateway_down : Probes
gateway_down = record {
  gateway = timed_out;
  redis_memory = read 1024;
  work_orders = read 0;
  stale_work_orders = read 0;
  ollama = unreachable "no route";
  models = λ body. 0;
  tokens_used = read 0;
  disk = usage 500 "10.0" "20.0" "50.0";
  shown_memory = λ n. "0.0";
  shown_percent = λ a b. "0.0";
}

abbrev disk : Disk
disk = record {
  logs = some (record { path = "logs/a.log"; size = 10; modified = 0 } ∷ []);
  reports = none;
  pycaches = [];
}

abbrev four_rounds : List (Option Probes)
four_rounds =
    none ∷ some gateway_down ∷ some gateway_down ∷ some gateway_down ∷ some gateway_down ∷ []

alerts-IsSpaced_example : IsSpaced (run_heartbeat_loop beat four_rounds (started disk)).posts
alerts-IsSpaced_example = alerts-IsSpaced beat disk four_rounds

restarts_limited_example :
    (attempt_count "gateway" (run_heartbeat_loop beat four_rounds (started disk)) ≤ 3)
    × ((run_heartbeat_loop beat four_rounds (started disk)).restarted ≤ 3)
restarts_limited_example = restarts_limited beat refl disk four_rounds "gateway"

restarted_sample : (run_heartbeat_loop beat four_rounds (started disk)).restarted ≡ 3
unfolding run_heartbeat_loop round handle health_of
restarted_sample = refl

posts_sample : length (run_heartbeat_loop beat four_rounds (started disk)).posts ≡ 2
unfolding run_heartbeat_loop round handle health_of
posts_sample = refl
