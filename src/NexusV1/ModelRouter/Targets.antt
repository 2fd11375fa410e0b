-- ===== src/NexusV1/ModelRouter/Targets.antt =====
-- The name of the model that is asked for.
use text.Mathlib.Text.{starts_with}
use text.Mathlib.TextLemmas.{cons-append, nil-append, append_assoc}
use nexus_ai_team.Prelude.{
  ◌≡◌, sym, String, true, false, Bool-cases, inl, inr, arith, if◌then◌else◌,
}
use text.Mathlib.TextBridge.{IsPrefix}
use text.Mathlib.TextPositions.{starts_with-append}
use text.Mathlib.TextEquality.{starts_with_iff}
use nexus_ai_team.Prelude.Text.{◌⁀◌, contains}
use nexus_ai_team.NexusV1.Config.{ensure_provider_prefix}

contains_of_start : (s : String) → starts_with s "/" ≡ true → contains "/" s ≡ true
unfolding contains
contains_of_start String.[] h = cc
contains_of_start (String.◌∷◌ c s) h = rw h

contains-middle : (p t : String) → contains "/" (p ⁀ "/" ⁀ t) ≡ true
unfolding contains
contains-middle String.[] t = rw nil-append (contains_of_start ("/" ⁀ t) (starts_with-append "/" t))
contains-middle (String.◌∷◌ c p) t = rw cons-append (ground (arith, contains-middle p t))

prefixed : (provider model : String) → IsPrefix (provider ⁀ "/") model → contains "/" model ≡ true
prefixed provider model (t, e) =
    rw (sym e, append_assoc provider "/" t) (contains-middle provider t)

has_slash : (provider model : String) → contains "/" (ensure_provider_prefix provider model) ≡ true
unfolding ensure_provider_prefix
has_slash provider model = elim (Bool-cases (starts_with model (provider ⁀ "/"))) [
  | inl y ↦ rw y (prefixed provider model ((starts_with_iff model (provider ⁀ "/")).0 y))
  | inr n ↦ elim (Bool-cases (contains "/" model)) [
    | inl y ↦ rw (n, y) y
    | inr m ↦ rw (n, m) (contains-middle provider model)
  ]
]

slash_kept :
    (other model : String) → contains "/" model ≡ true → ensure_provider_prefix other model ≡ model
unfolding ensure_provider_prefix
slash_kept other model h = elim (Bool-cases (starts_with model (other ⁀ "/"))) [
  | inl y ↦ rw y
  | inr n ↦ rw (n, h)
]

unprefixed :
    (provider model : String)
    → contains "/" model ≡ false
    → ensure_provider_prefix provider model ≡ provider ⁀ "/" ⁀ model
unfolding ensure_provider_prefix
unprefixed provider model none_there = elim (Bool-cases (starts_with model (provider ⁀ "/"))) [
  | inl y ↦ absurd (
      ground
        (arith, none_there, prefixed provider model ((starts_with_iff model (provider ⁀ "/")).0 y)))
  | inr n ↦ rw (n, none_there)
]

prefix_lem :
    (provider model : String)
    → ensure_provider_prefix provider model
      ≡ (if contains "/" model then model else provider ⁀ "/" ⁀ model)
prefix_lem provider model = elim (Bool-cases (contains "/" model)) [
  | inl y ↦ rw y (slash_kept provider model y)
  | inr n ↦ rw n (unprefixed provider model n)
]

-- Whatever the provider and the model: a model with a slash in its name keeps its name, and any
-- other is named by the provider, a slash and the model; to name the result once more, for any
-- provider, leaves it as it is.
pub ensure_provider_prefix_idem :
    (provider other model : String)
    → (ensure_provider_prefix provider model
        ≡ (if contains "/" model then model else provider ⁀ "/" ⁀ model))
      × (ensure_provider_prefix other (ensure_provider_prefix provider model)
          ≡ ensure_provider_prefix provider model)
ensure_provider_prefix_idem provider other model =
    (prefix_lem provider model, slash_kept other _ (has_slash provider model))
