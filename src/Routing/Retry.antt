-- ===== src/Routing/Retry.antt =====
-- routing/router.py, `AgentRouter._retry_transient`.
use wastech_orchestrator.Prelude.{
  ℕ, zero, suc, ◌+◌, Option, none, some, List, [], ◌∷◌, ◌++◌, if◌then◌else◌,
}
use wastech_orchestrator.Providers.Base.{
  ProviderId, ErrorClass, session_unavailable, same_class, in_classes, transient_retryable,
}
use wastech_orchestrator.Providers.Request.{AgentRunRequest, AgentRunResult}
use wastech_orchestrator.Routing.Config.{returned, raised, AgentRouter}
use wastech_orchestrator.Routing.Attempts.{ProviderAttempt, invoke}

pub record Retried (W : Type 0) : Type 0 where
  pub result : Option AgentRunResult
  pub last_class : ErrorClass
  pub audit_attempt : ℕ
  pub attempts : List ProviderAttempt
  pub world : W

-- The request of the next try, or none where the class ends the retries.
unfoldable pub next_try : AgentRunRequest → ErrorClass → Option AgentRunRequest
unfolding same_class in_classes
next_try resume_req error_class =
    if same_class error_class session_unavailable
    then some (record resume_req { session_id = none })
    else if in_classes error_class transient_retryable
    then some resume_req
    else none

module _ {W : Type 0} (router : AgentRouter W) (pid : ProviderId) where
  -- The tries that are left, and the number of the next.
  unfoldable pub retry_from :
      ℕ → ℕ → AgentRunRequest → ErrorClass → ℕ → List ProviderAttempt → W → Option (Retried W)
  unfolding invoke next_try
  retry_from zero k resume_req last_class audit attempts w = some (record {
    result = none;
    last_class = last_class;
    audit_attempt = audit;
    attempts = attempts;
    world = w;
  })
  retry_from (suc tries) k resume_req last_class audit attempts w =
      elim (invoke router pid (record resume_req { attempt = audit + 1 }) (audit + 1)
        (router.backoff k w)) [
          | none ↦ none
          | some call ↦ elim call.ran [
            | returned result ↦ some (record {
              result = some result;
              last_class = last_class;
              audit_attempt = audit + 1;
              attempts = attempts ++ (call.row ∷ []);
              world = call.world;
            })
            | raised exc ↦ elim (next_try resume_req exc.error_class) [
              | none ↦ some (record {
                result = none;
                last_class = exc.error_class;
                audit_attempt = audit + 1;
                attempts = attempts ++ (call.row ∷ []);
                world = call.world;
              })
              | some req ↦
                  retry_from tries (k + 1) req exc.error_class (audit + 1)
                    (attempts ++ (call.row ∷ [])) call.world
            ]
          ]
        ]

  unfoldable pub retry_transient :
      AgentRunRequest → ErrorClass → ℕ → List ProviderAttempt → W → Option (Retried W)
  unfolding retry_from
  retry_transient req first_class audit attempts w =
      retry_from router.agents.retry_max_attempts 0 req first_class audit attempts w
