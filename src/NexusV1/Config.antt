-- ===== src/NexusV1/Config.antt =====
-- nexus_v1/config.py. Temperatures are in hundredths. `getenv` is os.getenv.
use nexus_ai_team.Prelude.{ℕ, String, ◌==◌, Option, none, some, [], ◌∷◌, get_or, if◌then◌else◌}
use nexus_ai_team.Prelude.Text.{◌⁀◌, contains, strip, nonempty}
use nexus_ai_team.Prelude.Dict.{Dict, lookup}
use nexus_ai_team.Effects.{Result, ok, err, key_error}
use text.Mathlib.Text.{starts_with}

abbrev pub difficulty_to_role : Dict String
difficulty_to_role =
    ("trivial", "intern") ∷ ("normal", "director") ∷ ("complex", "ceo") ∷ ("unclear", "admin") ∷ []

found {ℓ} : {A : Type ℓ} → String → Option A → Result A
found key none = err (key_error key)
found key (some a) = ok a

unfoldable pub owner_for_difficulty : String → Result String
unfolding found lookup
owner_for_difficulty difficulty = found difficulty (lookup difficulty difficulty_to_role)

pub record ModelTarget : Type 0 where
  pub role : String
  pub provider : String
  pub model : String
  pub max_tokens : ℕ
  pub temperature : ℕ
  pub api_key_env : String
  pub base_url_env : String
  pub default_base_url : Option String

unfoldable pub ensure_provider_prefix : (provider model : String) → String
unfolding contains
ensure_provider_prefix provider model =
    if starts_with model (provider ⁀ "/")
    then model
    else if contains "/" model
    then model
    else provider ⁀ "/" ⁀ model

abbrev pub provider_api_key_env : Dict String
provider_api_key_env =
    ("anthropic", "ANTHROPIC_API_KEY")
    ∷ ("openai", "OPENAI_API_KEY")
    ∷ ("ollama", "OLLAMA_API_KEY")
    ∷ []

abbrev pub provider_base_url_env : Dict String
provider_base_url_env =
    ("anthropic", "ANTHROPIC_BASE_URL")
    ∷ ("openai", "OPENAI_BASE_URL")
    ∷ ("ollama", "OLLAMA_BASE_URL")
    ∷ []

abbrev pub provider_default_base_url : Dict (Option String)
provider_default_base_url =
    ("anthropic", none) ∷ ("openai", none) ∷ ("ollama", some "http://localhost:11434") ∷ []

-- Each of the three tables has the same providers.
unfoldable pub build_target :
    (provider model role : String) → (max_tokens temperature : ℕ) → Result ModelTarget
unfolding lookup ensure_provider_prefix
build_target provider model role max_tokens temperature =
    elim (lookup provider provider_api_key_env) [
      | none ↦ err (key_error provider)
      | some key_env ↦ ok (record {
        role = role;
        provider = provider;
        model = ensure_provider_prefix provider model;
        max_tokens = max_tokens;
        temperature = temperature;
        api_key_env = key_env;
        base_url_env = get_or (lookup provider provider_base_url_env) "";
        default_base_url = get_or (lookup provider provider_default_base_url) none;
      })
    ]

-- os.getenv(name, "").strip() or None
unfoldable pub stripped_env : (getenv : String → Option String) → String → Option String
unfolding strip
stripped_env getenv name =
    let value = strip (get_or (getenv name) "") in if nonempty value then some value else none

unfoldable pub resolved_api_key : (getenv : String → Option String) → ModelTarget → Option String
unfolding stripped_env
resolved_api_key getenv target =
    if nonempty target.api_key_env then stripped_env getenv target.api_key_env else none

unfoldable pub resolved_base_url : (getenv : String → Option String) → ModelTarget → Option String
unfolding stripped_env
resolved_base_url getenv target =
    if nonempty target.base_url_env
    then elim (stripped_env getenv target.base_url_env) [
      | none ↦ target.default_base_url
      | some value ↦ some value
    ]
    else target.default_base_url

payroll_target : (getenv : String → Option String) → String → Result ModelTarget
unfolding build_target
payroll_target getenv role =
    if role == "ceo"
    then build_target "anthropic" (get_or (getenv "NEXUS_MODEL_CEO") "claude-opus-4-6") "ceo" 8192
        20
    else if role == "director"
    then build_target "anthropic"
        (get_or (getenv "NEXUS_MODEL_DIRECTOR") "claude-sonnet-4-5-20250929") "director" 8192 20
    else if role == "intern"
    then build_target "anthropic" (get_or (getenv "NEXUS_MODEL_INTERN") "claude-haiku-3-5") "intern"
        4096 30
    else if role == "admin"
    then build_target "ollama" (get_or (getenv "NEXUS_MODEL_ADMIN") "qwen3:8b") "admin" 4096 10
    else err
        (key_error ("Unknown role '" ⁀ role ⁀ "'. Expected one of: admin, ceo, director, intern"))

-- get_model_target with the table of get_tiered_payroll_models.
unfoldable pub get_model_target : (getenv : String → Option String) → String → Result ModelTarget
unfolding payroll_target
get_model_target getenv role = payroll_target getenv role
