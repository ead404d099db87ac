-- ===== src/Routing/Stage/Calls.antt =====
-- routing/router.py, `AgentRouter.run_stage`: what a call that can be made ends with.
use wastech_orchestrator.Prelude.{
  ℕ, zero, suc, ◌+◌, ◌≡◌, refl, some_inj, ap, ◌∙◌, ◌≢◌, String, Option, none, some, List, [], ◌∷◌,
  ◌++◌, Option-cases, arith, inl, inr,
}
use wastech_orchestrator.Providers.Base.{ProviderId, ErrorClass}
use wastech_orchestrator.Providers.Request.{AgentRunRequest, ProviderError}
use wastech_orchestrator.Routing.Config.{
  raised, AgentProvider, Least, least, unparsable, incomparable, AgentRouter,
}
use wastech_orchestrator.Routing.Route.Available.{IsServed}
use wastech_orchestrator.Routing.Attempts.{ProviderAttempt, Call, invoke}
use wastech_orchestrator.Routing.Retry.{Retried, next_try, retry_from}
use wastech_orchestrator.Routing.Stage.{earlier}
use wastech_orchestrator.Routing.Stage.Counting.{Ran-cases}

-- The instants that the providers' errors tell can be compared: they are all of one sort, `Tells`, the
-- least of two such is one of them again, and `min` raises no TypeError on two of them.
pub record IsComparable {W : Type 0} (router : AgentRouter W) (Tells : String → Type 0)
    : Type 0 where
  pub told :
      (pid : ProviderId) (run : AgentProvider W) (req : AgentRunRequest) (w : W)
      (exc : ProviderError) (instant : String)
      → router.providers pid ≡ some run
      → (run req w).0 ≡ raised exc
      → exc.resets_at ≡ some instant
      → Tells instant
  pub compared : (a b : String) → Tells a → Tells b → router.min_instant a b ≢ incomparable
  pub one_of : (a b c : String) → Tells a → Tells b → router.min_instant a b ≡ least c → Tells c

-- The instant, if there is one, is of the sort.
abbrev pub AreTold : (String → Type 0) → Option String → Type 0
AreTold Tells none = Unit
AreTold Tells (some instant) = Tells instant

module _ {W : Type 0} (router : AgentRouter W) (Tells : String → Type 0)
    (comparable : IsComparable router Tells) where
  pub earlier-AreTold :
      (current candidate : Option String)
      → AreTold Tells current
      → AreTold Tells candidate
      → (instant : Option String) × (earlier router current candidate ≡ some instant)
        × AreTold Tells instant
  unfolding earlier
  earlier-AreTold none none h k = (none, refl, tt)
  earlier-AreTold (some a) none h k = (some a, refl, h)
  earlier-AreTold none (some b) h k = (some b, refl, k)
  earlier-AreTold (some a) (some b) h k = go (router.min_instant a b) refl
    where
      go :
          (m : Least)
          → router.min_instant a b ≡ m
          → (instant : Option String) × (earlier router (some a) (some b) ≡ some instant)
            × AreTold Tells instant
      go incomparable q = absurd (comparable.compared a b h k q)
      go unparsable q = (some a, rw (earlier, q) refl, h)
      go (least c) q = (some c, rw (earlier, q) refl, comparable.one_of a b c h k q)

  pub invoke-AreTold :
      (pid : ProviderId) (req : AgentRunRequest) (n : ℕ) (w : W) (call : Call W)
      (exc : ProviderError)
      → invoke router pid req n w ≡ some call
      → call.ran ≡ raised exc
      → AreTold Tells exc.resets_at
  unfolding invoke
  invoke-AreTold pid req n w call exc z f = elim (Option-cases exc.resets_at) [
    | inl g ↦ rw g tt
    | inr (instant, g) ↦ rw g (elim (Option-cases (router.providers pid)) [
      | inl e ↦ absurd (ground (arith, rw (invoke, e) at z))
      | inr (run, e) ↦ elim (Option-cases (router.agents.provider pid)) [
        | inl c ↦ absurd (ground (arith, rw (invoke, e, c) at z))
        | inr (cfg, c) ↦
            let same = some_inj (rw (invoke, e, c) at z) in
            comparable.told pid run req w exc instant e (ap (λ (x : Call W). x.ran) same ∙ f) g
      ]
    ])
  ]

module _ {W : Type 0} (router : AgentRouter W) where
  pub invoke-some :
      (pid : ProviderId) (req : AgentRunRequest) (n : ℕ) (w : W)
      → IsServed router pid
      → (call : Call W) × (invoke router pid req n w ≡ some call)
  unfolding invoke
  invoke-some pid req n w h = elim (Option-cases (invoke router pid req n w)) [
    | inr found ↦ found
    | inl z ↦ elim (Option-cases (router.providers pid)) [
      | inl e ↦ absurd (ground (arith, h.instantiated, e))
      | inr (run, e) ↦ elim (Option-cases (router.agents.provider pid)) [
        | inl f ↦ absurd (ground (arith, h.configured, f))
        | inr (cfg, f) ↦ absurd (ground (arith, rw (invoke, e, f) at z))
      ]
    ]
  ]

  pub retry_from-some :
      (pid : ProviderId) (tries k : ℕ) (req : AgentRunRequest) (last : ErrorClass) (audit : ℕ)
      (rows : List ProviderAttempt) (w : W)
      → IsServed router pid
      → (r : Retried W) × (retry_from router pid tries k req last audit rows w ≡ some r)
  unfolding retry_from
  retry_from-some pid zero k req last audit rows w h = (_, refl)
  retry_from-some pid (suc tries) k req last audit rows w h =
      let (call, e) =
        invoke-some pid (record req { attempt = audit + 1 }) (audit + 1) (router.backoff k w) h in
      elim (Ran-cases call.ran) [
        | inl (a, f) ↦
            elim (Option-cases (retry_from router pid (suc tries) k req last audit rows w)) [
              | inr found ↦ found
              | inl z ↦ absurd (ground (arith, rw (retry_from, e, f) at z))
            ]
        | inr (exc, f) ↦ elim (Option-cases (next_try req exc.error_class)) [
          | inl g ↦
              elim (Option-cases (retry_from router pid (suc tries) k req last audit rows w)) [
                | inr found ↦ found
                | inl z ↦ absurd (ground (arith, rw (retry_from, e, f, g) at z))
              ]
          | inr (req', g) ↦
              let (r, q) =
                retry_from-some pid tries (k + 1) req' exc.error_class (audit + 1)
                  (rows ++ (call.row ∷ [])) call.world h in
              (r, rw (retry_from, e, f, g) q)
        ]
      ]
