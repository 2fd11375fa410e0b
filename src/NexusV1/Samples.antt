-- ===== src/NexusV1/Samples.antt =====
-- Surroundings to run the agents in: a model that reviews each work with a pass, and one that is
-- never there.
use nexus_ai_team.Prelude.{ℕ, String, true, ◌==◌, nat_eq, none, some, [], ◌∷◌, if◌then◌else◌}
use nexus_ai_team.NexusV1.ModelRouter.{text, Completion, replied, failed, ChatRequest, Env, Calls}
use nexus_ai_team.NexusV1.Admin.{Payload}

abbrev answer : String → Completion
answer t = replied (record { model = some "claude-haiku-3-5"; choices = text t ∷ []; usage = none })

-- The work is long enough, and the reviews, which may have fifty tokens, pass.
abbrev helpful : ℕ → ChatRequest → Completion
helpful n r = if nat_eq r.max_tokens 50 then answer "PASS" else answer "The typo is fixed."

abbrev pub sample_env : (ℕ → ChatRequest → Completion) → Env Payload
sample_env complete = record {
  getenv = λ name. if name == "ANTHROPIC_API_KEY" then some "key" else none;
  installed = true;
  complete = complete;
  day = λ n. "20260101";
  findall = λ t. "README.md" ∷ [];
  loads = λ t. none;
  shown = λ e. "error";
}

abbrev pub online : Env Payload
online = sample_env helpful

abbrev pub offline : Env Payload
offline = sample_env (λ n r. failed "unreachable")

abbrev pub no_calls : Calls
no_calls = record { completions = 0; clock_reads = 0; orders = 1 }
