-- ===== src/Orchestrator/Tools/Llm/Retries.antt =====
-- What `llm_call` returns, and how often it asks and how long it waits.
use nexus_ai_team.Prelude.{
  ℕ, zero, suc, ◌+◌, ◌-◌, ◌^◌, ltb, ◌≡◌, refl, String, Option, none, some, List, [], ◌∷◌,
  Bool-cases, inl, inr,
}
use nexus_ai_team.Prelude.Text.{strip}
use nexus_ai_team.Effects.{runtime_error, Result, ok, err, pure, ◌>>=◌, ◌>>◌}
use nexus_ai_team.Orchestrator.System.{
  World, System, Act, Endpoint, Request, Reply, content, no_content, failure, completion, sleep,
}
use nexus_ai_team.Orchestrator.Tools.Llm.{
  of_reply, try_completion, back_off, after_attempt, fallback_loop, llm_call_with,
  primary_connect_timeout,
}

-- The first answer with a text, stripped.
abbrev pub first_content : List Reply → Option String
first_content [] = none
first_content (content text ∷ replies) = some (strip text)
first_content (no_content ∷ replies) = first_content replies
first_content (failure e ∷ replies) = first_content replies

-- What the server answers to a request that is made `k` times, from call number `n` on.
abbrev pub replies : World → Request → ℕ → ℕ → List Reply
replies w r n zero = []
replies w r n (suc k) = w.complete n r ∷ replies w r (suc n) k

abbrev pub Returns : Option String → Result String → Type 0
Returns (some text) r = r ≡ ok text
Returns none r = (message : String) × (r ≡ err (runtime_error message))

-- One attempt, if what comes after a failure returns the first content of `rest`.
attempt_answer :
    (rest : List Reply) (again : String → Act String) (wait : Act (Unit {0})) (sys : System)
    → ((e : String) → Returns (first_content rest) ((wait >> again e) sys).0)
    → (reply : Reply)
    → Returns (first_content (reply ∷ rest)) (after_attempt again wait (of_reply reply) sys).0
unfolding of_reply after_attempt pure
attempt_answer rest again wait sys ih (content text) = refl
attempt_answer rest again wait sys ih no_content = ih _
attempt_answer rest again wait sys ih (failure e) = ih e

module _ (w : World) (role system_prompt user_prompt : String)
    (max_tokens max_retries timeout : ℕ) where
  abbrev loop : ℕ → String → Act String
  loop = fallback_loop w role system_prompt user_prompt max_tokens max_retries timeout

  abbrev pub request : Endpoint → ℕ → Request
  request endpoint seconds = record {
    endpoint = endpoint;
    system_prompt = system_prompt;
    user_prompt = user_prompt;
    max_tokens = max_tokens;
    timeout = seconds;
  }

  abbrev fallback_replies : ℕ → ℕ → List Reply
  fallback_replies = replies w (request w.fallback timeout)

  wait_answer :
      (left : ℕ) (sys : System)
      → ((e : String) (s : System)
          → Returns (first_content (fallback_replies s.completions left)) (loop left e s).0)
      → (attempt : ℕ) (e : String)
      → Returns
          (first_content (fallback_replies sys.completions left))
          ((back_off attempt max_retries >> loop left e) sys).0
  unfolding back_off ◌>>=◌ sleep
  wait_answer left sys ih attempt e = elim (Bool-cases (ltb attempt max_retries)) [
    | inl more ↦ rw more (ih e (record sys { slept = sys.slept + 2 ^ attempt }))
    | inr last ↦ rw last (ih e sys)
  ]

  loop_answer :
      (left : ℕ) (e : String) (sys : System)
      → Returns (first_content (fallback_replies sys.completions left)) (loop left e sys).0
  unfolding fallback_loop ◌>>=◌ try_completion completion
  loop_answer zero e sys = (_, refl)
  loop_answer (suc left) e sys =
      let after_sys = record sys { completions = suc sys.completions } in
      attempt_answer (fallback_replies (suc sys.completions) left) (loop left) _ after_sys
        (wait_answer left after_sys (loop_answer left) (max_retries - left)) _

  -- The call returns the first text, stripped, among the answer of the primary endpoint and the
  -- answers of `max_retries` calls to the fallback, and raises a RuntimeError if none has a text.
  pub llm_call_with-Returns :
      (sys : System)
      → Returns
          (first_content (
            w.complete sys.completions (request w.primary primary_connect_timeout)
            ∷ fallback_replies (suc sys.completions) max_retries))
          (llm_call_with w role system_prompt user_prompt max_tokens max_retries timeout sys).0
  unfolding llm_call_with ◌>>=◌ try_completion completion
  llm_call_with-Returns sys =
      let after_sys = record sys { completions = suc sys.completions } in
      attempt_answer (fallback_replies (suc sys.completions) max_retries)
        (λ e. loop max_retries "None") (pure tt) after_sys
        (λ e. loop_answer max_retries "None" after_sys) _
