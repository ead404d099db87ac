-- ===== src/Routing/Stage/Counting.antt =====
-- What the rounds of a stage count: hops, calls, and the numbers of the audit rows.
use wastech_orchestrator.Prelude.{
  ℕ, zero, suc, ◌+◌, ◌≤◌, ◌≡◌, refl, subst, some_inj, some, List, [], ◌∷◌, ◌++◌, length,
  length-append, Option-cases, arith, ◌⊎◌, inl, inr,
}
use wastech_orchestrator.Providers.Base.{ProviderId, ErrorClass}
use wastech_orchestrator.Providers.Request.{AgentRunRequest, AgentRunResult, ProviderError}
use wastech_orchestrator.Routing.Config.{Ran, returned, raised, AgentRouter}
use wastech_orchestrator.Routing.Attempts.{ProviderAttempt, Call, attempt_row, invoke}
use wastech_orchestrator.Routing.Retry.{Retried, next_try, retry_from}

-- The rows after `n` others carry the numbers `n + 1`, `n + 2`, ... in order.
abbrev pub IsNumbered : ℕ → List ProviderAttempt → Type 0
IsNumbered n [] = Unit
IsNumbered n (row ∷ rows) = (row.attempt ≡ n + 1) × IsNumbered (n + 1) rows

pub IsNumbered-append :
    (n : ℕ) (rows : List ProviderAttempt) (row : ProviderAttempt)
    → IsNumbered n rows
    → row.attempt ≡ n + length rows + 1
    → IsNumbered n (rows ++ (row ∷ []))
IsNumbered-append n [] row h e = (ground arith, tt)
IsNumbered-append n (r ∷ rows) row (h, hs) e =
    (h, IsNumbered-append (n + 1) rows row hs (omega arith))

pub invoke-attempt :
    {W : Type 0} (router : AgentRouter W) (pid : ProviderId) (req : AgentRunRequest) (n : ℕ) (w : W)
    (call : Call W)
    → invoke router pid req n w ≡ some call
    → call.row.attempt ≡ n
unfolding invoke attempt_row
invoke-attempt router pid req n w call h = elim (Option-cases (router.providers pid)) [
  | inl e ↦ absurd (ground arith)
  | inr (run, e) ↦ elim (Option-cases (router.agents.provider pid)) [
    | inl f ↦ absurd (ground arith)
    | inr (cfg, f) ↦ ground arith
  ]
]

-- What a call of `_retry_transient` with `tries` tries does to the rows.
pub record IsRetried (tries before : ℕ) (audit : ℕ) (rows : List ProviderAttempt) : Type 0 where
  pub numbered : IsNumbered 0 rows
  pub counted : audit ≡ length rows
  pub bounded : length rows ≤ before + tries

abbrev pub Recorded : ℕ → List ProviderAttempt → Type 0
Recorded audit rows = IsNumbered 0 rows × (audit ≡ length rows)

-- One more call, one more row.
pub Recorded-invoke :
    {W : Type 0} (router : AgentRouter W) (pid : ProviderId) (req : AgentRunRequest) (w : W)
    (audit : ℕ) (rows : List ProviderAttempt) (call : Call W)
    → Recorded audit rows
    → invoke router pid req (audit + 1) w ≡ some call
    → Recorded (audit + 1) (rows ++ (call.row ∷ []))
Recorded-invoke router pid req w audit rows call (numbered, counted) h = (
  IsNumbered-append 0 rows call.row numbered
      (omega (arith, invoke-attempt router pid req (audit + 1) w call h, counted)),
  omega (arith, length-append rows (call.row ∷ []), counted),
)

pub Ran-cases :
    (r : Ran) → ((a : AgentRunResult) × (r ≡ returned a)) ⊎ ((e : ProviderError) × (r ≡ raised e))
Ran-cases (returned a) = inl (a, refl)
Ran-cases (raised e) = inr (e, refl)

abbrev pub IsRetriedAs : {W : Type 0} → ℕ → ℕ → Retried W → Type 0
IsRetriedAs tries before r = IsRetried tries before r.audit_attempt r.attempts

pub retry_from-IsRetried :
    {W : Type 0} (router : AgentRouter W) (pid : ProviderId) (tries k : ℕ) (req : AgentRunRequest)
    (last : ErrorClass) (audit : ℕ) (rows : List ProviderAttempt) (w : W) (r : Retried W)
    → Recorded audit rows
    → retry_from router pid tries k req last audit rows w ≡ some r
    → IsRetriedAs tries (length rows) r
unfolding retry_from
retry_from-IsRetried router pid zero k req last audit rows w r (numbered, counted) h =
    subst (IsRetriedAs 0 (length rows)) (some_inj h)
      (record { numbered = numbered; counted = counted; bounded = omega arith })
retry_from-IsRetried router pid (suc tries) k req last audit rows w r recorded h =
    elim (Option-cases
      (invoke router pid (record req { attempt = audit + 1 }) (audit + 1) (router.backoff k w))) [
        | inl e ↦ absurd (ground arith)
        | inr (call, e) ↦
            let (numbered, counted) = Recorded-invoke router pid _ _ audit rows call recorded e in
            let grown = length-append rows (call.row ∷ []) in
            elim (Ran-cases call.ran) [
              | inl (a, f) ↦
                  subst (IsRetriedAs (suc tries) (length rows))
                    (some_inj (rw (retry_from, e, f) at h))
                    (record { numbered = numbered; counted = counted; bounded = omega arith })
              | inr (exc, f) ↦ elim (Option-cases (next_try req exc.error_class)) [
                | inl g ↦
                    subst (IsRetriedAs (suc tries) (length rows))
                      (some_inj (rw (retry_from, e, f, g) at h))
                      (record { numbered = numbered; counted = counted; bounded = omega arith })
                | inr (req', g) ↦
                    let rest =
                      retry_from-IsRetried router pid tries (k + 1) req' exc.error_class (audit + 1)
                        (rows ++ (call.row ∷ [])) call.world r (numbered, counted)
                        (rw (retry_from, e, f, g) at h) in
                    record {
                      numbered = rest.numbered;
                      counted = rest.counted;
                      bounded = omega (arith, rest.bounded);
                    }
              ]
            ]
      ]
