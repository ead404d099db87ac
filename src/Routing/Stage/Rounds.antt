-- ===== src/Routing/Stage/Rounds.antt =====
-- Each round of a stage keeps its counts, and leaves an error where it does not answer.
use wastech_orchestrator.Prelude.{
  ℕ, ◌+◌, ◌≤◌, ◌<◌, ◌≡◌, refl, leb, ltb, Bool, true, false, ◌&&◌, Option, none, some, [], ◌∷◌,
  length, length-append, is_some, Bool-cases, Option-cases, arith, inl, inr, if◌then◌else◌,
}
use wastech_orchestrator.Providers.Base.{
  ProviderId, ErrorClass, session_unavailable, same_class, in_classes, transient_retryable,
}
use wastech_orchestrator.Providers.Request.{AgentRunRequest, ProviderError}
use wastech_orchestrator.Routing.Config.{ProviderConfig, AgentRouter}
use wastech_orchestrator.Routing.Fallback.{fallback_allowed}
use wastech_orchestrator.Routing.Attempts.{WorkingTreeSnapshot, Call, build_request, invoke}
use wastech_orchestrator.Routing.Retry.{retry_transient}
use wastech_orchestrator.Routing.Stage.{
  SnapshotHook, Progress, Round, escaped, answered, broken, continued, can_isolate, fall_back,
  retry_fresh, retry_same, recover, hop, earlier, recorded, noted, refreshed, partial_for,
}
use wastech_orchestrator.Routing.Stage.Counting.{
  Recorded, Recorded-invoke, Ran-cases, retry_from-IsRetried,
}

module _ {W : Type 0} where
  -- At most `limit` hops, and at most `spare` calls more than hops, each with its row.
  pub record IsCounted (limit spare : ℕ) (s : Progress W) : Type 0 where
    pub hops : s.stage_attempts ≤ limit
    pub recorded : Recorded s.audit_attempt s.attempts
    pub calls : length s.attempts ≤ s.stage_attempts + spare

  abbrev pub IsCountedRound : ℕ → ℕ → Round W → Type 0
  IsCountedRound limit spare escaped = Unit
  IsCountedRound limit spare (answered result pid s) = IsCounted limit spare s
  IsCountedRound limit spare (broken s) = IsCounted limit spare s × (is_some s.last_error ≡ true)
  IsCountedRound limit spare (continued s) = IsCounted limit spare s × (is_some s.last_error ≡ true)

  module _ (router : AgentRouter W) (before : Option (SnapshotHook W × WorkingTreeSnapshot))
      (spare : ℕ) (pid : ProviderId) (next : Option ProviderId) where
    abbrev limit : ℕ
    limit = router.agents.max_stage_attempts

    pub fall_back-IsCounted :
        (n : Option ProviderId) (c : ErrorClass) (s : Progress W)
        → IsCounted limit spare s
        → is_some s.last_error ≡ true
        → IsCountedRound limit spare (fall_back router before pid n c s)
    unfolding fall_back
    fall_back-IsCounted none c s h e = (h, e)
    fall_back-IsCounted (some n) c s h e =
        split (leb limit s.stage_attempts) (router.agents.provider pid) (router.agents.provider n)
      where
        refresh :
            (b : Option (SnapshotHook W × WorkingTreeSnapshot))
            → IsCountedRound limit spare (continued (refreshed router b s))
        refresh none = (h, e)
        refresh (some (hook, taken)) =
            (record { hops = h.hops; recorded = h.recorded; calls = h.calls }, e)

        decide :
            (allowed : Bool)
            → IsCountedRound limit spare
                (if allowed then continued (refreshed router before s) else broken s)
        decide true = refresh before
        decide false = (h, e)

        split :
            (spent : Bool) (cfg next_cfg : Option ProviderConfig)
            → IsCountedRound limit spare (
                if spent then continued s else elim cfg [
                  | none ↦ escaped
                  | some c1 ↦ elim next_cfg [
                    | none ↦ escaped
                    | some c2 ↦
                        if fallback_allowed c c1.permission_profile c2.permission_profile
                          (can_isolate router n)
                        then continued (refreshed router before s)
                        else broken s
                  ]
                ])
        split true cfg next_cfg = (h, e)
        split false none next_cfg = tt
        split false (some c1) none = tt
        split false (some c1) (some c2) = decide _

    IsCounted-call :
        (b : ℕ) (r : AgentRunRequest) (s : Progress W) (call : Call W)
        → IsCounted limit b s
        → s.stage_attempts < limit
        → invoke router pid r (s.audit_attempt + 1) s.world ≡ some call
        → IsCounted limit b (
            recorded router call.row call.world (record s {
              audit_attempt = s.audit_attempt + 1;
              stage_attempts = s.stage_attempts + 1;
            }))
    IsCounted-call b r s call h room e = record {
      hops = omega (arith, room);
      recorded = Recorded-invoke router pid r s.world s.audit_attempt s.attempts call h.recorded e;
      calls = omega (arith, h.calls, length-append s.attempts (call.row ∷ []));
    }

    retry_fresh-IsCounted :
        (req : AgentRunRequest) (s : Progress W)
        → IsCounted limit spare s
        → s.stage_attempts < limit
        → IsCountedRound limit spare (retry_fresh router before pid next req s)
    unfolding retry_fresh
    retry_fresh-IsCounted req s h room =
        let number = s.audit_attempt + 1 in
        let req' = record req { session_id = none; attempt = number } in
        elim (Option-cases (invoke router pid req' number s.world)) [
          | inl e ↦ rw (retry_fresh, e) tt
          | inr (call, e) ↦
              let s' =
                recorded router call.row call.world
                  (record s { audit_attempt = number; stage_attempts = s.stage_attempts + 1 }) in
              let h' : IsCounted limit spare s' = IsCounted-call spare req' s call h room e in
              elim (Ran-cases call.ran) [
                | inl (a, f) ↦ rw (retry_fresh, e, f) h'
                | inr (exc, f) ↦
                    elim (Option-cases (earlier router s'.earliest_reset exc.resets_at)) [
                      | inl g ↦ rw (retry_fresh, e, f, g) tt
                      | inr (instant, g) ↦
                          rw (retry_fresh, e, f, g)
                            (fall_back-IsCounted next exc.error_class (noted router exc instant s')
                              (record { hops = h'.hops; recorded = h'.recorded; calls = h'.calls })
                              refl)
                    ]
              ]
        ]

    retry_same-IsCounted :
        (spent : ℕ) (req : AgentRunRequest) (exc : ProviderError) (s : Progress W)
        → IsCounted limit spent s
        → spent + router.agents.retry_max_attempts ≤ spare
        → IsCountedRound limit spare (retry_same router before pid next req exc s)
    unfolding retry_same retry_transient
    retry_same-IsCounted spent req exc s h fits =
        elim (Option-cases
          (retry_transient router pid req exc.error_class s.audit_attempt s.attempts s.world)) [
            | inl e ↦ rw (retry_same, e) tt
            | inr (r, e) ↦
                let tried =
                  retry_from-IsRetried router pid router.agents.retry_max_attempts 0 req
                    exc.error_class s.audit_attempt s.attempts s.world r h.recorded e in
                let s' : Progress W = record s {
                  audit_attempt = r.audit_attempt;
                  attempts = r.attempts;
                  world = r.world;
                } in
                let h' : IsCounted limit spare s' = record {
                  hops = h.hops;
                  recorded = (tried.numbered, tried.counted);
                  calls = omega (arith, h.calls, tried.bounded, fits);
                } in
                elim (Option-cases r.result) [
                  | inr (a, f) ↦ rw (retry_same, e, f) h'
                  | inl f ↦
                      rw (retry_same, e, f)
                        (fall_back-IsCounted next r.last_class _
                          (record { hops = h'.hops; recorded = h'.recorded; calls = h'.calls })
                          refl)
                ]
          ]

    recover-IsCounted :
        (spent : ℕ) (req : AgentRunRequest) (exc : ProviderError) (s : Progress W)
        → IsCounted limit spent s
        → spent + router.agents.retry_max_attempts ≤ spare
        → is_some s.last_error ≡ true
        → IsCountedRound limit spare (recover router before pid next req exc s)
    unfolding recover
    recover-IsCounted spent req exc s h fits explained =
        let polled = record s { world = (router.is_cancelled s.world).1 } in
        let now : IsCounted limit spent polled = record {
          hops = h.hops;
          recorded = h.recorded;
          calls = h.calls;
        } in
        let h' : IsCounted limit spare polled = record {
          hops = h.hops;
          recorded = h.recorded;
          calls = omega (arith, h.calls, fits);
        } in
        elim (Bool-cases (router.is_cancelled s.world).0) [
          | inl e ↦
              rw (recover, e)
                (record { hops = h'.hops; recorded = h'.recorded; calls = h'.calls }, refl)
          | inr e ↦
              elim (Bool-cases (
                same_class exc.error_class session_unavailable
                && (is_some req.session_id && ltb s.stage_attempts limit))) [
                  | inl f ↦
                      rw (recover, e, f) (retry_fresh-IsCounted req polled h' (ground (arith, f)))
                  | inr f ↦
                      elim (Bool-cases (
                        in_classes exc.error_class transient_retryable
                        && ltb 0 router.agents.retry_max_attempts)) [
                          | inl g ↦
                              rw (recover, e, f, g)
                                (retry_same-IsCounted spent req exc polled now fits)
                          | inr g ↦
                              rw (recover, e, f, g)
                                (fall_back-IsCounted next exc.error_class polled h' explained)
                        ]
                ]
        ]

    pub hop-IsCounted :
        (spent : ℕ) (request : AgentRunRequest) (previous : Option ProviderId) (s : Progress W)
        → IsCounted limit spent s
        → spent + router.agents.retry_max_attempts ≤ spare
        → s.stage_attempts < limit
        → IsCountedRound limit spare (hop router before request previous pid next s)
    unfolding hop
    hop-IsCounted spent request previous s h fits room =
        let number = s.audit_attempt + 1 in
        let req =
          build_request request number (partial_for router before request previous s.partial)
            previous pid in
        elim (Option-cases (invoke router pid req number s.world)) [
          | inl e ↦ rw (hop, e) tt
          | inr (call, e) ↦
              let s' =
                recorded router call.row call.world
                  (record s { audit_attempt = number; stage_attempts = s.stage_attempts + 1 }) in
              let h' = IsCounted-call spent req s call h room e in
              elim (Ran-cases call.ran) [
                | inl (a, f) ↦
                    rw (hop, e, f)
                      (record {
                        hops = h'.hops;
                        recorded = h'.recorded;
                        calls = omega (arith, h'.calls, fits);
                      })
                | inr (exc, f) ↦
                    elim (Option-cases (earlier router s'.earliest_reset exc.resets_at)) [
                      | inl g ↦ rw (hop, e, f, g) tt
                      | inr (instant, g) ↦
                          rw (hop, e, f, g)
                            (recover-IsCounted spent req exc (noted router exc instant s')
                              (record { hops = h'.hops; recorded = h'.recorded; calls = h'.calls })
                              fits refl)
                    ]
              ]
        ]
