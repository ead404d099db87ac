-- ===== src/Providers/Capabilities.antt =====
-- providers/capabilities.py: what is left of a reasoning level when the provider changes.
use wastech_orchestrator.Prelude.{Bool, false, String, Option, none, some, str_eq, if◌then◌else◌}
use wastech_orchestrator.Providers.Base.{ProviderId, codex, claude}

abbrev is_minimal : Option String → Bool
is_minimal none = false
is_minimal (some level) = str_eq level "minimal"

unfoldable pub map_reasoning_for_provider_switch :
    ProviderId → ProviderId → Option String → Option String
map_reasoning_for_provider_switch codex claude reasoning =
    if is_minimal reasoning then some "low" else none
map_reasoning_for_provider_switch codex codex _ = none
map_reasoning_for_provider_switch claude _ _ = none
