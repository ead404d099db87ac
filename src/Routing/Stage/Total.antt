-- ===== src/Routing/Stage/Total.antt =====
-- routing/router.py, `AgentRouter.run_stage`: a route that can be run gives an outcome.
use wastech_orchestrator.Prelude.{
  ◌+◌, ◌≡◌, refl, subst, some_inj, String, leb, ltb, false, ◌&&◌, Option, none, some, List, [], ◌∷◌,
  is_some, Bool-cases, Option-cases, arith, inl, inr,
}
use wastech_orchestrator.Providers.Base.{
  ProviderId, ErrorClass, session_unavailable, same_class, in_classes, transient_retryable,
}
use wastech_orchestrator.Providers.Request.{AgentRunRequest, ProviderError}
use wastech_orchestrator.Routing.Config.{AgentRouter}
use wastech_orchestrator.Routing.Fallback.{fallback_allowed}
use wastech_orchestrator.Routing.Route.{ResolvedRoute}
use wastech_orchestrator.Routing.Route.Available.{IsServed, IsRunnable}
use wastech_orchestrator.Routing.Attempts.{WorkingTreeSnapshot, build_request}
use wastech_orchestrator.Routing.Retry.{retry_transient}
use wastech_orchestrator.Routing.Stage.{
  SnapshotHook, StageOutcome, Progress, Round, escaped, answered, broken, continued, can_isolate,
  fall_back, refreshed, retry_fresh, retry_same, recover, hop, first, try_each, partial_for,
  conclude, no_progress, captured, run_stage,
}
use wastech_orchestrator.Routing.Stage.Counting.{Ran-cases}
use wastech_orchestrator.Routing.Stage.Outcome.{pids_after, sequence-lem}
use wastech_orchestrator.Routing.Stage.Calls.{
  IsComparable, AreTold, earlier-AreTold, invoke-AreTold, invoke-some, retry_from-some,
}

module _ {W : Type 0} (router : AgentRouter W) (Tells : String → Type 0)
    (comparable : IsComparable router Tells) where
  abbrev Returns : Round W → Type 0
  Returns escaped = ⊥
  Returns (answered result pid s) = Unit
  Returns (broken s) = Unit
  Returns (continued s) = AreTold Tells s.earliest_reset

  module _ (before : Option (SnapshotHook W × WorkingTreeSnapshot)) (pid : ProviderId)
      (served : IsServed router pid) (next : Option ProviderId)
      (next_served : (n : ProviderId) → next ≡ some n → IsServed router n) where
    refreshed-AreTold :
        (s : Progress W)
        → AreTold Tells s.earliest_reset
        → AreTold Tells (refreshed router before s).earliest_reset
    refreshed-AreTold s k = go before
      where
        go :
            (b : Option (SnapshotHook W × WorkingTreeSnapshot))
            → AreTold Tells (refreshed router b s).earliest_reset
        go none = k
        go (some (hook, taken)) = k

    fall_back-Returns :
        (n : Option ProviderId) (c : ErrorClass) (s : Progress W)
        → ((p : ProviderId) → n ≡ some p → IsServed router p)
        → AreTold Tells s.earliest_reset
        → Returns (fall_back router before pid n c s)
    unfolding fall_back
    fall_back-Returns none c s h k = k
    fall_back-Returns (some n) c s h k =
        elim (Bool-cases (leb router.agents.max_stage_attempts s.stage_attempts)) [
          | inl e ↦ rw (fall_back, e) k
          | inr e ↦ elim (Option-cases (router.agents.provider pid)) [
            | inl f ↦ absurd (ground (arith, served.configured, f))
            | inr (cfg, f) ↦ elim (Option-cases (router.agents.provider n)) [
              | inl g ↦ absurd (ground (arith, (h n refl).configured, g))
              | inr (next_cfg, g) ↦
                  elim (Bool-cases (
                    fallback_allowed c cfg.permission_profile next_cfg.permission_profile
                      (can_isolate router n))) [
                        | inl a ↦ rw (fall_back, e, f, g, a) (refreshed-AreTold s k)
                        | inr a ↦ rw (fall_back, e, f, g, a) tt
                      ]
            ]
          ]
        ]

    retry_fresh-Returns :
        (req : AgentRunRequest) (s : Progress W)
        → AreTold Tells s.earliest_reset
        → Returns (retry_fresh router before pid next req s)
    unfolding retry_fresh
    retry_fresh-Returns req s k =
        let number = s.audit_attempt + 1 in
        let (call, e) =
          invoke-some router pid (record req { session_id = none; attempt = number }) number s.world
            served in
        elim (Ran-cases call.ran) [
          | inl (a, f) ↦ rw (retry_fresh, e, f) tt
          | inr (exc, f) ↦
              let (instant, g, k') =
                earlier-AreTold router Tells comparable s.earliest_reset exc.resets_at k (
                  invoke-AreTold router Tells comparable pid
                    (record req { session_id = none; attempt = number }) number s.world call exc e
                    f) in
              rw (retry_fresh, e, f, g) (fall_back-Returns next exc.error_class _ next_served k')
        ]

    retry_same-Returns :
        (req : AgentRunRequest) (exc : ProviderError) (s : Progress W)
        → AreTold Tells s.earliest_reset
        → Returns (retry_same router before pid next req exc s)
    unfolding retry_same retry_transient
    retry_same-Returns req exc s k =
        let (r, e) =
          retry_from-some router pid router.agents.retry_max_attempts 0 req exc.error_class
            s.audit_attempt s.attempts s.world served in
        elim (Option-cases r.result) [
          | inr (a, f) ↦ rw (retry_same, retry_transient, e, f) tt
          | inl f ↦
              rw (retry_same, retry_transient, e, f)
                (fall_back-Returns next r.last_class _ next_served k)
        ]

    recover-Returns :
        (req : AgentRunRequest) (exc : ProviderError) (s : Progress W)
        → AreTold Tells s.earliest_reset
        → Returns (recover router before pid next req exc s)
    unfolding recover
    recover-Returns req exc s k =
        let polled = record s { world = (router.is_cancelled s.world).1 } in
        elim (Bool-cases (router.is_cancelled s.world).0) [
          | inl e ↦ rw (recover, e) tt
          | inr e ↦
              elim (Bool-cases (
                same_class exc.error_class session_unavailable
                && (is_some req.session_id
                    && ltb s.stage_attempts router.agents.max_stage_attempts))) [
                      | inl f ↦ rw (recover, e, f) (retry_fresh-Returns req polled k)
                      | inr f ↦
                          elim (Bool-cases (
                            in_classes exc.error_class transient_retryable
                            && ltb 0 router.agents.retry_max_attempts)) [
                              | inl g ↦ rw (recover, e, f, g) (retry_same-Returns req exc polled k)
                              | inr g ↦
                                  rw (recover, e, f, g)
                                    (fall_back-Returns next exc.error_class polled next_served k)
                            ]
                    ]
        ]

    hop-Returns :
        (request : AgentRunRequest) (previous : Option ProviderId) (s : Progress W)
        → AreTold Tells s.earliest_reset
        → Returns (hop router before request previous pid next s)
    unfolding hop
    hop-Returns request previous s k =
        let number = s.audit_attempt + 1 in
        let req =
          build_request request number (partial_for router before request previous s.partial)
            previous pid in
        let (call, e) = invoke-some router pid req number s.world served in
        elim (Ran-cases call.ran) [
          | inl (a, f) ↦ rw (hop, e, f) tt
          | inr (exc, f) ↦
              let (instant, g, k') =
                earlier-AreTold router Tells comparable s.earliest_reset exc.resets_at k
                  (invoke-AreTold router Tells comparable pid req number s.world call exc e f) in
              rw (hop, e, f, g) (recover-Returns req exc _ k')
        ]

  module _ (before : Option (SnapshotHook W × WorkingTreeSnapshot))
      (request : AgentRunRequest) where
    -- Every item is served.
    abbrev AllServed : List ProviderId → Type 0
    AllServed [] = Unit
    AllServed (pid ∷ pids) = IsServed router pid × AllServed pids

    first-IsServed :
        (pids : List ProviderId)
        → AllServed pids
        → (n : ProviderId) → first router before request pids ≡ some n
        → IsServed router n
    first-IsServed [] h n e = absurd (ground (arith, e))
    first-IsServed (pid ∷ pids) h n e = subst (IsServed router) (some_inj e) h.0

    try_each-Returns :
        (previous : Option ProviderId) (pids : List ProviderId) (s : Progress W)
        → AllServed pids
        → AreTold Tells s.earliest_reset
        → Returns (try_each router before request previous pids s)
    unfolding try_each
    try_each-Returns previous [] s h told = tt
    try_each-Returns previous (pid ∷ pids) s h told =
        elim (Bool-cases (leb router.agents.max_stage_attempts s.stage_attempts)) [
          | inl e ↦ rw (try_each, e) tt
          | inr e ↦
              go e (hop router before request previous pid (first router before request pids) s)
                refl
                (hop-Returns before pid h.0 (first router before request pids)
                  (first-IsServed pids h.1) request previous s told)
                (λ s' k. try_each-Returns (some pid) pids s' h.1 k)
        ]
      where
        go :
            leb router.agents.max_stage_attempts s.stage_attempts ≡ false
            → (r : Round W)
            → hop router before request previous pid (first router before request pids) s ≡ r
            → Returns r
            → ((s' : Progress W)
                → AreTold Tells s'.earliest_reset
                → Returns (try_each router before request (some pid) pids s'))
            → Returns (try_each router before request previous (pid ∷ pids) s)
        go e escaped q k rest = absurd k
        go e (answered result used s') q k rest = rw (try_each, e, q) tt
        go e (broken s') q k rest = rw (try_each, e, q) tt
        go e (continued s') q k rest = rw (try_each, e, q) (rest s' k)

  conclude-some :
      (route : ResolvedRoute) (r : Round W)
      → Returns r
      → (o : StageOutcome) × (w : W) × (conclude router route r ≡ some (o, w))
  unfolding conclude
  conclude-some route escaped h = absurd h
  conclude-some route (answered result pid s) h = (_, _, refl)
  conclude-some route (broken s) h = (_, _, refl)
  conclude-some route (continued s) h = (_, _, refl)

  AllServed-pids_after :
      (before : Option (SnapshotHook W × WorkingTreeSnapshot)) (request : AgentRunRequest)
      (f : Option ProviderId)
      → ((pid : ProviderId) → f ≡ some pid → IsServed router pid)
      → AllServed before request (pids_after router f)
  AllServed-pids_after before request none h = tt
  AllServed-pids_after before request (some pid) h = (h pid refl, tt)

  -- If every provider of the route is allowed, configured and instantiated, and the reset instants that
  -- the providers' errors tell can be compared with each other (all of them have an offset, or none), then
  -- `run_stage` returns an outcome, for whatever results and provider errors the calls end with, whenever
  -- a stop is asked for, and whatever the snapshots show. The calls raise nothing but provider errors.
  pub run_stage_returns :
      (request : AgentRunRequest) (route : ResolvedRoute) (snapshot : Option (SnapshotHook W))
      (w : W)
      → IsRunnable router route
      → (o : StageOutcome) × (w' : W) × (run_stage router route request snapshot w ≡ some (o, w'))
  unfolding run_stage
  run_stage_returns request route snapshot w h =
      let (before, w0) = captured router route snapshot w in
      let (o, w', e) = conclude-some route _ (
        try_each-Returns before request none (route.primary ∷ pids_after router route.fallback)
          (no_progress router route w0)
          (h.primary_served, AllServed-pids_after before request route.fallback h.fallback_served)
          tt) in
      (o, w', rw (run_stage, sequence-lem router route) e)
