-- ===== src/NexusV1/ModelRouter.antt =====
-- nexus_v1/model_router.py. What litellm's completion function brings is an argument, asked for by
-- the number of the call. `extra_params`, which no caller gives, is left out.
pub mod Targets
pub mod Requests
pub mod Answers
use nexus_ai_team.Prelude.{
  ℕ, suc, String, Bool, true, false, not, ◌==◌, ◌&&◌, ◌||◌, Option, none, some, List, [], ◌∷◌,
  get_or, is_empty, nat_eq, ◌+◌, if◌then◌else◌,
}
use nexus_ai_team.Prelude.Text.{◌⁀◌, strip, nonempty, join}
use nexus_ai_team.Effects.{
  Error, Result, ok, err, value_error, runtime_error, os_error, Exec, pure, raise, lift, ◌>>=◌,
  ◌>>◌,
}
use nexus_ai_team.NexusV1.Config.{
  ModelTarget, get_model_target, build_target, owner_for_difficulty, resolved_api_key,
  resolved_base_url,
}

-- The content of a message: missing, a text, a list of the texts of its parts, or another object,
-- with what str() shows of it.
pub data Content : Type 0 where
  no_content : Content
  text : String → Content
  parts : List String → Content
  other : String → Content

keep_nonempty : List String → List String
keep_nonempty [] = []
keep_nonempty (t ∷ ts) = let rest = keep_nonempty ts in if nonempty t then t ∷ rest else rest

unfoldable pub coerce_message_content : Content → String
unfolding keep_nonempty strip join
coerce_message_content no_content = ""
coerce_message_content (text t) = t
coerce_message_content (parts ts) = strip (join "\n" (keep_nonempty ts))
coerce_message_content (other shown) = shown

pub record Usage : Type 0 where
  pub prompt_tokens : Option ℕ
  pub completion_tokens : Option ℕ
  pub total_tokens : Option ℕ

pub record RawResponse : Type 0 where
  pub model : Option String
  pub choices : List Content
  pub usage : Option Usage

pub data Completion : Type 0 where
  replied : RawResponse → Completion
  failed : String → Completion

unfoldable pub extract_text : RawResponse → String
unfolding coerce_message_content
extract_text raw = elim raw.choices [ [] ↦ "" | first ∷ rest ↦ coerce_message_content first ]

pub record TokenCounts : Type 0 where
  pub prompt_tokens : ℕ
  pub completion_tokens : ℕ
  pub total_tokens : ℕ

-- A missing total is the sum of the other two.
counted : Usage → TokenCounts
counted usage = record {
  prompt_tokens = get_or usage.prompt_tokens 0;
  completion_tokens = get_or usage.completion_tokens 0;
  total_tokens =
      get_or usage.total_tokens (get_or usage.prompt_tokens 0 + get_or usage.completion_tokens 0);
}

unfoldable pub extract_usage : RawResponse → Option TokenCounts
unfolding counted
extract_usage raw = elim raw.usage [
  | none ↦ none
  | some usage ↦
      let c = counted usage in
      if nat_eq c.prompt_tokens 0 && nat_eq c.completion_tokens 0 && nat_eq c.total_tokens 0
      then none
      else some c
]

pub record Message : Type 0 where
  pub role : String
  pub content : Content

pub record CleanMessage : Type 0 where
  pub role : String
  pub content : String

clean_all : List Message → Result (List CleanMessage)
unfolding strip coerce_message_content
clean_all [] = ok []
clean_all (m ∷ ms) =
    let rest = clean_all ms in
    if not (nonempty (strip m.role))
    then err (value_error "Every message must include a non-empty 'role'.")
    else elim rest [
      | err e ↦ err e
      | ok clean ↦
          ok (record { role = strip m.role; content = coerce_message_content m.content } ∷ clean)
    ]

unfoldable pub sanitize_messages : List Message → Result (List CleanMessage)
unfolding clean_all
sanitize_messages messages =
    if is_empty messages
    then err (value_error "At least one message is required.")
    else clean_all messages

pub record ChatRequest : Type 0 where
  pub model : String
  pub messages : List CleanMessage
  pub max_tokens : ℕ
  pub temperature : ℕ
  pub api_key : Option String
  pub api_base : Option String

pub record RouterResponse : Type 0 where
  pub provider : String
  pub model : String
  pub content : String
  pub usage : Option TokenCounts

-- What the agents use of the world outside; `installed` tells whether litellm could be imported.
-- `day` is the day of the clock as "%Y%m%d"; `findall` the matches of the pattern of file names,
-- in order; `loads` json.loads, and `none` when the text is no JSON object; `shown` the str() of an
-- exception.
pub record Env (Payload : Type 0) : Type 0 where
  pub getenv : String → Option String
  pub installed : Bool
  pub complete : ℕ → ChatRequest → Completion
  pub day : ℕ → String
  pub findall : String → List String
  pub loads : String → Option Payload
  pub shown : Error → String

pub record Calls : Type 0 where
  pub completions : ℕ
  pub clock_reads : ℕ
  pub orders : ℕ

abbrev pub Agent : Type 0 → Type 0
Agent A = Exec Calls A

module _ {Payload : Type 0} (env : Env Payload) where
  ask : ChatRequest → Agent RawResponse
  ask r s = (
    elim (env.complete s.completions r) [ replied raw ↦ ok raw | failed e ↦ err (runtime_error e) ],
    record s { completions = suc s.completions },
  )

  -- The completion function, when litellm is there.
  resolve_completion : ChatRequest → Agent RawResponse
  unfolding ask
  resolve_completion r =
      if env.installed
      then ask r
      else raise (runtime_error "LiteLLM is not installed. Install with: pip install litellm")

  response_of : ModelTarget → RawResponse → RouterResponse
  unfolding extract_text extract_usage
  response_of target raw = record {
    provider = target.provider;
    model = get_or raw.model target.model;
    content = extract_text raw;
    usage = extract_usage raw;
  }

  -- The request to a target; a provider other than ollama needs a key.
  unfoldable pub chat_target :
      ModelTarget → List Message → (temperature max_tokens : Option ℕ) → Agent RouterResponse
  unfolding resolve_completion response_of ◌>>=◌
  chat_target target messages temperature max_tokens =
      let api_key = resolved_api_key env.getenv target in
      if not (target.provider == "ollama") && not (nonempty (get_or api_key ""))
      then raise
          (os_error ("Missing " ⁀ target.api_key_env ⁀ " for provider '" ⁀ target.provider ⁀ "'."))
      else do
        clean ← lift (sanitize_messages messages)
        raw ← resolve_completion (record {
          model = target.model;
          messages = clean;
          max_tokens = get_or max_tokens target.max_tokens;
          temperature = get_or temperature target.temperature;
          api_key = api_key;
          api_base = resolved_base_url env.getenv target;
        })
        pure (response_of target raw)

  -- chat with a role, as every caller of the program gives one.
  unfoldable pub chat :
      List Message → (role : String) → (temperature max_tokens : Option ℕ) → Agent RouterResponse
  unfolding ◌>>=◌
  chat messages role temperature max_tokens = do
    target ← lift (get_model_target env.getenv role)
    chat_target target messages temperature max_tokens

  -- chat with a provider and a model.
  unfoldable pub chat_with :
      List Message
      → (provider model : String) → (temperature max_tokens : Option ℕ) → Agent RouterResponse
  unfolding ◌>>=◌
  chat_with messages provider model temperature max_tokens = do
    target ← lift (
        build_target provider model "adhoc"
          (if nat_eq (get_or max_tokens 0) 0 then 2048 else get_or max_tokens 0)
          (get_or temperature 20))
    chat_target target messages temperature max_tokens

  unfoldable pub route_by_difficulty :
      String → List Message → (temperature max_tokens : Option ℕ) → Agent RouterResponse
  unfolding ◌>>=◌
  route_by_difficulty difficulty messages temperature max_tokens =
      if difficulty == "trivial"
        || difficulty == "normal"
        || difficulty == "complex"
        || difficulty == "unclear"
      then lift (owner_for_difficulty difficulty)
        >>= (λ owner. chat messages owner temperature max_tokens)
      else raise (
          value_error (
            "Unknown difficulty '" ⁀ difficulty
            ⁀ "'. Expected one of: complex, normal, trivial, unclear"))
