-- ===== src/Providers/Reasoning.antt =====
-- providers/capabilities.py: the reasoning levels that a provider accepts.
use wastech_orchestrator.Prelude.{
  Bool, String, contains, Option, none, some, List, [], ◌∷◌, ◌++◌, str_eq, if◌then◌else◌,
}
use wastech_orchestrator.Providers.Base.{ProviderId, codex, claude}

abbrev pub reasoning_levels_for : ProviderId → List String
reasoning_levels_for codex = "minimal" ∷ "low" ∷ "medium" ∷ "high" ∷ "xhigh" ∷ "max" ∷ []
reasoning_levels_for claude = "low" ∷ "medium" ∷ "high" ∷ "xhigh" ∷ "max" ∷ []

-- for provider in ProviderId
abbrev pub all_reasoning_levels : List String
all_reasoning_levels = reasoning_levels_for codex ++ reasoning_levels_for claude

unfoldable pub is_reasoning_supported : ProviderId → String → Bool
is_reasoning_supported provider reasoning = contains (reasoning_levels_for provider) reasoning

-- `ProviderId(value)`, or None where that raises a ValueError
unfoldable pub coerce_provider : String → Option ProviderId
coerce_provider value =
    if str_eq value "codex" then some codex else if str_eq value "claude" then some claude else none
