-- ===== src/NexusV1/ModelRouter/Requests.antt =====
-- How often a chat asks the completion function.
use nexus_ai_team.Prelude.{ℕ, String, Option, List, arith}
use nexus_ai_team.Effects.Spends.{
  Spends, Spends-pure, Spends-raise, Spends-lift, Spends-if, Spends-bind,
}
use nexus_ai_team.NexusV1.Config.{ModelTarget}
use nexus_ai_team.NexusV1.ModelRouter.{
  Message, Env, Calls, Agent, ChatRequest, ask, resolve_completion, chat_target, chat,
}

-- The number of requests so far.
abbrev pub requests : Calls → ℕ
requests s = s.completions

-- An agent that asks the models at most `n` times.
abbrev pub Asks : {A : Type 0} → ℕ → Agent A → Type 0
Asks n m = Spends requests n m

module _ {Payload : Type 0} (env : Env Payload) where
  ask-Asks : (r : ChatRequest) → Asks 1 (ask env r)
  unfolding ask
  ask-Asks r = record { at = λ s. omega arith }

  resolve-Asks : (r : ChatRequest) → Asks 1 (resolve_completion env r)
  unfolding resolve_completion
  resolve-Asks r = Spends-if requests 1 env.installed _ _ (ask-Asks r) (Spends-raise requests 1 _)

  target-Asks :
      (target : ModelTarget) (messages : List Message) (temperature max_tokens : Option ℕ)
      → Asks 1 (chat_target env target messages temperature max_tokens)
  unfolding chat_target
  target-Asks target messages temperature max_tokens =
      Spends-if requests 1 _ _ _ (Spends-raise requests 1 _) (
        Spends-bind 0 1 _
          (λ clean. Spends-bind 1 0 _ (λ raw. Spends-pure requests 0 _) _ (resolve-Asks _)) _
          (Spends-lift requests 0 _))

  pub chat-Asks :
      (messages : List Message) (role : String) (temperature max_tokens : Option ℕ)
      → Asks 1 (chat env messages role temperature max_tokens)
  unfolding chat
  chat-Asks messages role temperature max_tokens =
      Spends-bind 0 1 _ (λ target. target-Asks target messages temperature max_tokens) _
        (Spends-lift requests 0 _)
