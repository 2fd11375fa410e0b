-- ===== src/Orchestrator/Tools/Llm.antt =====
-- nexus/orchestrator/tools/_llm_helper.py: one call to the primary endpoint, then retries on the
-- fallback with a growing pause.
pub mod Retries
pub mod Cost
use nexus_ai_team.Prelude.{ℕ, zero, suc, ◌+◌, ◌-◌, ◌^◌, ltb, String, if◌then◌else◌}
use nexus_ai_team.Prelude.Text.{◌⁀◌, decimal, strip}
use nexus_ai_team.Effects.{Result, ok, err, runtime_error, pure, raise, ◌>>=◌, ◌>>◌}
use nexus_ai_team.Orchestrator.System.{
  World, Endpoint, Reply, content, no_content, failure, Act, completion, sleep,
}

abbrev pub primary_connect_timeout : ℕ
primary_connect_timeout = 5

pub data Attempt : Type 0 where
  answered : String → Attempt
  failed : String → Attempt

of_reply : Reply → Attempt
of_reply (content text) = answered (strip text)
of_reply no_content = failed "LLM returned None content"
of_reply (failure e) = failed e

-- _try_completion; `failed` stands for the exception that the callers catch.
unfoldable pub try_completion :
    World → Endpoint → (system_prompt user_prompt : String) → (max_tokens timeout : ℕ) → Act Attempt
unfolding of_reply
try_completion w endpoint system_prompt user_prompt max_tokens timeout = do
  reply ← completion w (record {
    endpoint = endpoint;
    system_prompt = system_prompt;
    user_prompt = user_prompt;
    max_tokens = max_tokens;
    timeout = timeout;
  })
  pure (of_reply reply)

exhausted : World → String → ℕ → String → String
exhausted w role max_retries last_error =
    "LLM call failed after primary + "
    ⁀ decimal max_retries
    ⁀ " fallback attempts (role="
    ⁀ role
    ⁀ ", primary="
    ⁀ w.primary.model
    ⁀ ", fallback="
    ⁀ w.fallback.model
    ⁀ "): "
    ⁀ last_error

-- The pause after failed attempt number `attempt`, if another one follows.
back_off : ℕ → ℕ → Act (Unit {0})
back_off attempt max_retries = if ltb attempt max_retries then sleep (2 ^ attempt) else pure tt

after_attempt : (String → Act String) → Act (Unit {0}) → Attempt → Act String
after_attempt again wait (answered text) = pure text
after_attempt again wait (failed e) = wait >> again e

module _ (w : World) (role system_prompt user_prompt : String)
    (max_tokens max_retries timeout : ℕ) where
  -- The rounds of `for attempt in range(1, max_retries + 1)` that are left.
  unfoldable pub fallback_loop : ℕ → String → Act String
  unfolding exhausted back_off after_attempt
  fallback_loop zero last_error = raise (runtime_error (exhausted w role max_retries last_error))
  fallback_loop (suc left) last_error = do
    tried ← try_completion w w.fallback system_prompt user_prompt max_tokens timeout
    after_attempt (fallback_loop left) (back_off (max_retries - left) max_retries) tried

  unfoldable pub llm_call_with : Act String
  unfolding after_attempt
  llm_call_with = do
    tried ← try_completion w w.primary system_prompt user_prompt max_tokens primary_connect_timeout
    after_attempt (λ e. fallback_loop max_retries "None") (pure tt) tried

-- llm_call with its defaults max_retries=3 and timeout=120, which every caller leaves as they are.
unfoldable pub llm_call : World → (role system_prompt user_prompt : String) → ℕ → Act String
llm_call w role system_prompt user_prompt max_tokens =
    llm_call_with w role system_prompt user_prompt max_tokens 3 120
