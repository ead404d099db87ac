-- ===== src/Routing/Fallback.antt =====
-- routing/router.py, `fallback_allowed`.
pub mod Safety
use wastech_orchestrator.Prelude.{Bool, true, false, String, List, [], ◌∷◌, ◌&&◌, if◌then◌else◌}
use wastech_orchestrator.Providers.Base.{
  ErrorClass, authorization_failed, permission_denied, capability_unavailable, same_class,
  in_classes, fallback_eligible,
}
use wastech_orchestrator.Providers.Profiles.{is_same_or_stricter}

abbrev pub conditional_fallback : List ErrorClass
conditional_fallback = authorization_failed ∷ permission_denied ∷ capability_unavailable ∷ []

unfoldable pub fallback_allowed : ErrorClass → String → String → Bool → Bool
unfolding in_classes same_class
fallback_allowed error_class primary_profile fallback_profile fallback_can_isolate =
    if in_classes error_class fallback_eligible
    then true
    else if in_classes error_class conditional_fallback
    then (let same_or_stricter = is_same_or_stricter fallback_profile primary_profile in
        if same_class error_class capability_unavailable
        then same_or_stricter && fallback_can_isolate
        else same_or_stricter)
    else false
