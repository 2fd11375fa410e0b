-- ===== src/NexusV1/Tests.antt =====
-- Runs of the admin agent and of its parts.
use nexus_ai_team.Prelude.{if◌then◌else◌, ◌≡◌, refl, true, none, some, List, [], ◌∷◌}
use nexus_ai_team.Prelude.Text.{◌⁀◌, contains}
use nexus_ai_team.Effects.Yields.{Yields}
use nexus_ai_team.NexusV1.Config.{ensure_provider_prefix}
use nexus_ai_team.NexusV1.ModelRouter.Targets.{ensure_provider_prefix_idem}
use nexus_ai_team.NexusV1.Admin.{create_work_order}
use nexus_ai_team.NexusV1.Admin.Signals.{infer_difficulty, detect_equipment}
use nexus_ai_team.NexusV1.Admin.Compress.{Turn, fallback_compress}
use nexus_ai_team.NexusV1.Admin.Orders.{IsWellFormed, create_work_order-IsWellFormed}
use nexus_ai_team.NexusV1.Samples.{online}

abbrev conversation : List Turn
conversation = record { role = "user"; content = "There is a typo in README.md" } ∷ []

create_work_order-IsWellFormed_example :
    Yields IsWellFormed (create_work_order online true "Please fix the typo" conversation none)
create_work_order-IsWellFormed_example =
    create_work_order-IsWellFormed online true "Please fix the typo" conversation none

ensure_provider_prefix_idem_example :
    (ensure_provider_prefix "ollama" "qwen3:8b"
      ≡ (if contains "/" "qwen3:8b" then "qwen3:8b" else "ollama" ⁀ "/" ⁀ "qwen3:8b"))
    × (ensure_provider_prefix "openai" (ensure_provider_prefix "ollama" "qwen3:8b")
        ≡ ensure_provider_prefix "ollama" "qwen3:8b")
ensure_provider_prefix_idem_example = ensure_provider_prefix_idem "ollama" "openai" "qwen3:8b"

difficulty_sample :
    (infer_difficulty "refactor the database" "Refactor the database" ≡ "complex")
    × (infer_difficulty "hi" "hi" ≡ "unclear")
    × (detect_equipment "Run a backup now" ≡ some "backup")
    × (fallback_compress "a  b\n\nc" 4000 ≡ "a b c")
unfolding infer_difficulty detect_equipment fallback_compress
difficulty_sample = (refl, refl, refl, refl)
