-- ===== src/Providers/Base.antt =====
-- providers/base.py: provider ids, run statuses, error classes and the sets that drive fallback.
use mathlib.Core.Logic.{ite}
use wastech_orchestrator.Prelude.{Bool, true, false, String, Option, List, [], ◌∷◌, ◌++◌, any}

pub data ProviderId : Type 0 where
  codex claude : ProviderId

pub ProviderId-discrete : Discrete ProviderId
ProviderId-discrete = hlevel

unfoldable pub same_provider : ProviderId → ProviderId → Bool
unfolding ProviderId-discrete
same_provider p q = ite (ProviderId-discrete p q) true false

pub data RunStatus : Type 0 where
  succeeded failed : RunStatus

pub data ErrorClass : Type 0 where
  binary_not_found unsupported_version authentication_failed authorization_failed : ErrorClass
  rate_limited network_unavailable provider_unavailable timeout process_crashed : ErrorClass
  invalid_output permission_denied configuration_error invalid_invocation : ErrorClass
  model_request_invalid task_failure agent_no_progress session_unavailable cancelled : ErrorClass
  containment_unverified background_work_lost capability_unavailable : ErrorClass

pub ErrorClass-discrete : Discrete ErrorClass
ErrorClass-discrete = hlevel

unfoldable pub same_class : ErrorClass → ErrorClass → Bool
unfolding ErrorClass-discrete
same_class a b = ite (ErrorClass-discrete a b) true false

-- `c in classes`
unfoldable pub in_classes : ErrorClass → List ErrorClass → Bool
unfolding same_class
in_classes c classes = any (same_class c) classes

abbrev pub fallback_eligible : List ErrorClass
fallback_eligible =
    binary_not_found ∷ unsupported_version ∷ authentication_failed ∷ rate_limited
    ∷ network_unavailable ∷ provider_unavailable ∷ timeout ∷ process_crashed ∷ invalid_output
    ∷ agent_no_progress ∷ []

abbrev pub transient_retryable : List ErrorClass
transient_retryable = provider_unavailable ∷ network_unavailable ∷ []

abbrev pub park_eligible : List ErrorClass
park_eligible = transient_retryable ++ (rate_limited ∷ [])

pub record NormalizedError : Type 0 where
  pub error_class : ErrorClass
  pub message : String
  pub failure_subtype : Option String
  pub resets_at : Option String
