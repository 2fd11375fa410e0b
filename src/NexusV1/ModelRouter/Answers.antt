-- ===== src/NexusV1/ModelRouter/Answers.antt =====
-- Where the answer of a chat comes from.
use nexus_ai_team.Prelude.{
  ℕ, ◌≡◌, refl, ◌∙◌, String, Option, List, [], ◌∷◌, not, ◌&&◌, ◌==◌, get_or,
}
use nexus_ai_team.Prelude.Text.{◌⁀◌, strip, nonempty}
use nexus_ai_team.Effects.{ok, err, runtime_error, os_error, pure, raise, lift, ◌>>=◌}
use nexus_ai_team.Effects.Ensures.{
  OnOk, Ensures, Ensures-pure, Ensures-raise, Ensures-lift, Ensures-if, Ensures-bind, Ensures-seq,
}
use nexus_ai_team.NexusV1.Config.{ModelTarget, resolved_api_key, resolved_base_url}
use nexus_ai_team.NexusV1.ModelRouter.{
  text, RawResponse, Completion, replied, failed, extract_text, Message, CleanMessage,
  sanitize_messages, ChatRequest, RouterResponse, Env, ask, resolve_completion, response_of,
  chat_target, chat,
}

module _ {Payload : Type 0} (env : Env Payload) where
  -- The model was asked with the messages, and `content` is the text of what it replied.
  pub record IsAnswer (messages : List CleanMessage) (content : String) : Type 0 where
    pub call : ℕ
    pub request : ChatRequest
    pub raw : RawResponse
    pub messages_sent : request.messages ≡ messages
    pub answered : env.complete call request ≡ replied raw
    pub read : content ≡ extract_text raw

  IsReply : ChatRequest → RawResponse → Type 0
  IsReply r raw = (n : ℕ) × (env.complete n r ≡ replied raw)

  completion_lem :
      (r : ChatRequest) (n : ℕ) (c : Completion)
      → env.complete n r ≡ c
      → OnOk (IsReply r) (elim c [ replied raw ↦ ok raw | failed e ↦ err (runtime_error e) ])
  unfolding IsReply
  completion_lem r n (replied raw) h = (n, h)
  completion_lem r n (failed e) h = tt

  ask-IsReply : (r : ChatRequest) → Ensures (IsReply r) (ask env r)
  unfolding ask
  ask-IsReply r = record { at = λ s. completion_lem r s.completions _ refl }

  resolve-IsReply : (r : ChatRequest) → Ensures (IsReply r) (resolve_completion env r)
  unfolding resolve_completion
  resolve-IsReply r = Ensures-if env.installed _ _ (λ _. ask-IsReply r) (λ _. Ensures-raise _)

  module _ (question : String) where
    abbrev asked : List CleanMessage
    asked = record { role = "user"; content = question } ∷ []

    abbrev messages : List Message
    messages = record { role = "user"; content = text question } ∷ []

    sanitize_lem : OnOk (λ (clean : List CleanMessage). clean ≡ asked) (sanitize_messages messages)
    unfolding sanitize_messages strip
    sanitize_lem = refl

    reply-IsAnswer :
        (target : ModelTarget) (r : ChatRequest)
        → r.messages ≡ asked
        → Ensures
            (λ (response : RouterResponse). IsAnswer asked response.content)
            (resolve_completion env r >>= (λ raw. pure (response_of env target raw)))
    unfolding response_of IsReply
    reply-IsAnswer target r same =
        Ensures-bind {Q = IsReply r} (λ raw. pure (response_of env target raw))
          (λ raw h. Ensures-pure (response_of env target raw) (record {
            call = h.0;
            request = r;
            raw = raw;
            messages_sent = same;
            answered = h.1;
            read = refl;
          }))
          (resolve_completion env r) (resolve-IsReply r)

    sent-IsAnswer :
        (target : ModelTarget) (make : List CleanMessage → ChatRequest)
        → ((clean : List CleanMessage) → (make clean).messages ≡ clean)
        → Ensures
            (λ (response : RouterResponse). IsAnswer asked response.content)
            (lift (sanitize_messages messages) >>= (λ clean.
              resolve_completion env (make clean) >>= (λ raw. pure (response_of env target raw))))
    sent-IsAnswer target make kept =
        Ensures-bind {Q = λ (clean : List CleanMessage). clean ≡ asked} _
          (λ clean same. reply-IsAnswer target (make clean) (kept clean ∙ same)) _
          (Ensures-lift (sanitize_messages messages) sanitize_lem)

    target-IsAnswer :
        (target : ModelTarget) (temperature max_tokens : Option ℕ)
        → Ensures
            (λ (response : RouterResponse). IsAnswer asked response.content)
            (chat_target env target messages temperature max_tokens)
    unfolding chat_target
    target-IsAnswer target temperature max_tokens =
        Ensures-if
          (not (target.provider == "ollama")
            && not (nonempty (get_or (resolved_api_key env.getenv target) "")))
          (raise (
            os_error
              ("Missing " ⁀ target.api_key_env ⁀ " for provider '" ⁀ target.provider ⁀ "'.")))
          _ (λ _. Ensures-raise _)
          (λ _.
            sent-IsAnswer target
              (λ clean. record {
                model = target.model;
                messages = clean;
                max_tokens = get_or max_tokens target.max_tokens;
                temperature = get_or temperature target.temperature;
                api_key = resolved_api_key env.getenv target;
                api_base = resolved_base_url env.getenv target;
              })
              (λ clean. refl))

    -- The text that a chat about one question returns is that of a reply to the question.
    pub chat-IsAnswer :
        (role : String) (temperature max_tokens : Option ℕ)
        → Ensures
            (λ (r : RouterResponse). IsAnswer asked r.content)
            (chat env messages role temperature max_tokens)
    unfolding chat
    chat-IsAnswer role temperature max_tokens =
        Ensures-seq _ _ (λ target. target-IsAnswer target temperature max_tokens)
