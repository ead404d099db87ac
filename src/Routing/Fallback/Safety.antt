-- ===== src/Routing/Fallback/Safety.antt =====
-- routing/router.py, `fallback_allowed`: which failures let another provider take over.
use wastech_orchestrator.Prelude.{
  ◌≡◌, inl, inr, Bool, true, String, str_eq, eq_iff, arith, In, Bool-cases,
}
use wastech_orchestrator.Prelude.Dict
use wastech_orchestrator.Providers.Base.{
  ErrorClass, binary_not_found, unsupported_version, authentication_failed, authorization_failed,
  rate_limited, network_unavailable, provider_unavailable, timeout, process_crashed, invalid_output,
  permission_denied, configuration_error, invalid_invocation, model_request_invalid, task_failure,
  agent_no_progress, session_unavailable, cancelled, containment_unverified, background_work_lost,
  capability_unavailable, fallback_eligible,
}
use wastech_orchestrator.Providers.Profiles.{is_same_or_stricter}
use wastech_orchestrator.Routing.Fallback.{fallback_allowed}

-- The profiles by strictness: no other pair is ordered.
pub data IsNoLooser : String → String → Type 0 where
  both_read : IsNoLooser "read-only" "read-only"
  both_write : IsNoLooser "workspace-write" "workspace-write"
  read_for_write : IsNoLooser "read-only" "workspace-write"

pub is_same_or_stricter-IsNoLooser :
    (candidate reference : String)
    → is_same_or_stricter candidate reference ≡ true
    → IsNoLooser candidate reference
unfolding is_same_or_stricter Dict.get
is_same_or_stricter-IsNoLooser c r h = elim (Bool-cases (str_eq "read-only" c)) [
  | inl a ↦ elim (Bool-cases (str_eq "read-only" r)) [
    | inl b ↦ rw (← (eq_iff "read-only" c).0 a, ← (eq_iff "read-only" r).0 b) both_read
    | inr b ↦ elim (Bool-cases (str_eq "workspace-write" r)) [
      | inl d ↦ rw (← (eq_iff "read-only" c).0 a, ← (eq_iff "workspace-write" r).0 d) read_for_write
      | inr d ↦ absurd (ground arith)
    ]
  ]
  | inr a ↦ elim (Bool-cases (str_eq "workspace-write" c)) [
    | inr b ↦ absurd (ground arith)
    | inl b ↦ elim (Bool-cases (str_eq "read-only" r)) [
      | inl d ↦ absurd (ground arith)
      | inr d ↦ elim (Bool-cases (str_eq "workspace-write" r)) [
        | inl e ↦
            rw (← (eq_iff "workspace-write" c).0 b, ← (eq_iff "workspace-write" r).0 e) both_write
        | inr e ↦ absurd (ground arith)
      ]
    ]
  ]
]

-- What lets a fallback take place: an infrastructure failure, a refusal under a policy that the
-- fallback keeps, or a missing capability that it is also configured for.
pub data Allows (primary fallback : String) (isolates : Bool) : ErrorClass → Type 0 where
  infrastructure : (c : ErrorClass) → In c fallback_eligible → Allows primary fallback isolates c
  refused_authorization :
      IsNoLooser fallback primary → Allows primary fallback isolates authorization_failed
  refused_permission :
      IsNoLooser fallback primary → Allows primary fallback isolates permission_denied
  lacked_capability :
      IsNoLooser fallback primary
      → isolates ≡ true
      → Allows primary fallback isolates capability_unavailable

-- A fallback that is allowed is for an infrastructure class; or for a refused authorization or
-- permission, with a fallback profile that is not looser than the primary's; or for a missing
-- capability, with such a profile and a fallback that can isolate.
pub fallback_allowed-Allows :
    (c : ErrorClass) (primary fallback : String) (isolates : Bool)
    → fallback_allowed c primary fallback isolates ≡ true
    → Allows primary fallback isolates c
unfolding fallback_allowed
fallback_allowed-Allows binary_not_found p f i h = infrastructure _ (ground arith)
fallback_allowed-Allows unsupported_version p f i h = infrastructure _ (ground arith)
fallback_allowed-Allows authentication_failed p f i h = infrastructure _ (ground arith)
fallback_allowed-Allows rate_limited p f i h = infrastructure _ (ground arith)
fallback_allowed-Allows network_unavailable p f i h = infrastructure _ (ground arith)
fallback_allowed-Allows provider_unavailable p f i h = infrastructure _ (ground arith)
fallback_allowed-Allows timeout p f i h = infrastructure _ (ground arith)
fallback_allowed-Allows process_crashed p f i h = infrastructure _ (ground arith)
fallback_allowed-Allows invalid_output p f i h = infrastructure _ (ground arith)
fallback_allowed-Allows agent_no_progress p f i h = infrastructure _ (ground arith)
fallback_allowed-Allows authorization_failed p f i h =
    refused_authorization (is_same_or_stricter-IsNoLooser f p h)
fallback_allowed-Allows permission_denied p f i h =
    refused_permission (is_same_or_stricter-IsNoLooser f p h)
fallback_allowed-Allows capability_unavailable p f i h =
    lacked_capability (is_same_or_stricter-IsNoLooser f p (ground (arith, h))) (ground (arith, h))
fallback_allowed-Allows configuration_error p f i h = absurd (ground (arith, h))
fallback_allowed-Allows invalid_invocation p f i h = absurd (ground (arith, h))
fallback_allowed-Allows model_request_invalid p f i h = absurd (ground (arith, h))
fallback_allowed-Allows task_failure p f i h = absurd (ground (arith, h))
fallback_allowed-Allows session_unavailable p f i h = absurd (ground (arith, h))
fallback_allowed-Allows cancelled p f i h = absurd (ground (arith, h))
fallback_allowed-Allows containment_unverified p f i h = absurd (ground (arith, h))
fallback_allowed-Allows background_work_lost p f i h = absurd (ground (arith, h))
