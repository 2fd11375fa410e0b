-- ===== src/Orchestrator/Tools/Llm/Cost.antt =====
-- How often `llm_call` asks the model server, and how long it waits.
use nexus_ai_team.Prelude.{
  ℕ, zero, suc, ◌+◌, ◌-◌, ◌^◌, ◌≤◌, ltb, String, arith, Bool-cases, inl, inr, if◌then◌else◌,
}
use nexus_ai_team.Effects.{raise, pure, ◌>>=◌}
use nexus_ai_team.Orchestrator.System.{World, Endpoint, Request, System, Act, completion, sleep}
use nexus_ai_team.Orchestrator.Tools.Llm.{
  Attempt, answered, failed, of_reply, primary_connect_timeout, try_completion, back_off,
  after_attempt, fallback_loop, llm_call_with, llm_call,
}

-- At most `calls` more calls to the server, and at most `seconds` more of sleep.
abbrev pub Costs : ℕ → ℕ → System → System → Type 0
Costs calls seconds before after =
    (before.completions ≤ after.completions)
    × (after.completions ≤ before.completions + calls)
    × (after.slept ≤ before.slept + seconds)

abbrev pub pause : ℕ → ℕ → ℕ
pause attempt max_retries = if ltb attempt max_retries then 2 ^ attempt else 0

-- The pauses of the rounds that are left.
abbrev pub pauses : ℕ → ℕ → ℕ
pauses max_retries zero = 0
pauses max_retries (suc left) = pause (max_retries - left) max_retries + pauses max_retries left

attempt_cost :
    (again : String → Act String) (attempt max_retries calls seconds : ℕ)
    → ((e : String) (sys : System) → Costs calls seconds sys (again e sys).1)
    → (tried : Attempt) (sys : System)
    → Costs calls
        (pause attempt max_retries + seconds)
        sys
        (after_attempt again (back_off attempt max_retries) tried sys).1
unfolding after_attempt back_off ◌>>=◌ sleep
attempt_cost again attempt max_retries calls seconds ih (answered text) sys = omega arith
attempt_cost again attempt max_retries calls seconds ih (failed e) sys =
    elim (Bool-cases (ltb attempt max_retries)) [
      | inl more ↦
          let h = ih e (record sys { slept = sys.slept + 2 ^ attempt }) in rw more (omega arith)
      | inr last ↦ let h = ih e sys in rw last (omega arith)
    ]

-- A call to the server, and then what is done with its outcome.
asked :
    (w : World) (endpoint : Endpoint) (system_prompt user_prompt : String) (max_tokens timeout : ℕ)
    (f : Attempt → Act String) (calls seconds : ℕ)
    → ((tried : Attempt) (sys : System) → Costs calls seconds sys (f tried sys).1)
    → (sys : System)
    → Costs
        (suc calls)
        seconds
        sys
        ((try_completion w endpoint system_prompt user_prompt max_tokens timeout >>= f) sys).1
unfolding try_completion completion ◌>>=◌
asked w endpoint system_prompt user_prompt max_tokens timeout f calls seconds cost sys =
    let request : Request = record {
      endpoint = endpoint;
      system_prompt = system_prompt;
      user_prompt = user_prompt;
      max_tokens = max_tokens;
      timeout = timeout;
    } in
    let h =
      cost (of_reply (w.complete sys.completions request))
        (record sys { completions = suc sys.completions }) in
    omega (arith, h)

module _ (w : World) (role system_prompt user_prompt : String)
    (max_tokens max_retries timeout : ℕ) where
  abbrev loop : ℕ → String → Act String
  loop = fallback_loop w role system_prompt user_prompt max_tokens max_retries timeout

  loop_cost :
      (left : ℕ) (e : String) (sys : System)
      → Costs left (pauses max_retries left) sys (loop left e sys).1
  unfolding fallback_loop raise
  loop_cost zero e sys = omega arith
  loop_cost (suc left) e sys =
      asked w w.fallback system_prompt user_prompt max_tokens timeout _ left _
        (attempt_cost (loop left) (max_retries - left) max_retries left (pauses max_retries left)
          (loop_cost left))
        sys

  primary_cost :
      (tried : Attempt) (sys : System)
      → Costs max_retries
          (pauses max_retries max_retries)
          sys
          (after_attempt (λ e. loop max_retries "None") (pure tt) tried sys).1
  unfolding after_attempt ◌>>=◌
  primary_cost (answered text) sys = omega arith
  primary_cost (failed e) sys = loop_cost max_retries "None" sys

  call_cost :
      (sys : System)
      → Costs
          (suc max_retries)
          (pauses max_retries max_retries)
          sys
          (llm_call_with w role system_prompt user_prompt max_tokens max_retries timeout sys).1
  unfolding llm_call_with
  call_cost sys =
      asked w w.primary system_prompt user_prompt max_tokens primary_connect_timeout _ max_retries _
        primary_cost sys

-- `llm_call` with its defaults asks the server at most four times and sleeps at most six seconds,
-- whatever the server answers.
pub llm_call_cost :
    (w : World) (role system_prompt user_prompt : String) (max_tokens : ℕ) (sys : System)
    → Costs 4 6 sys (llm_call w role system_prompt user_prompt max_tokens sys).1
unfolding llm_call
llm_call_cost w role system_prompt user_prompt max_tokens sys =
    call_cost w role system_prompt user_prompt max_tokens 3 120 sys
