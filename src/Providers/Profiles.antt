-- ===== src/Providers/Profiles.antt =====
-- security/profiles.py: which permission profile is as strict as which.
use wastech_orchestrator.Prelude.{ℕ, leb, Bool, false, String, Option, some, [], ◌∷◌}
use wastech_orchestrator.Prelude.Dict
use wastech_orchestrator.Prelude.Dict.{Dict}

abbrev pub profile_strictness : Dict ℕ
profile_strictness = ("read-only", 0) ∷ ("workspace-write", 1) ∷ []

abbrev no_looser : Option ℕ → Option ℕ → Bool
no_looser (some c) (some r) = leb c r
no_looser _ _ = false

unfoldable pub is_same_or_stricter : String → String → Bool
is_same_or_stricter candidate reference =
    no_looser (Dict.get profile_strictness candidate) (Dict.get profile_strictness reference)
