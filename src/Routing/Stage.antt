-- ===== src/Routing/Stage.antt =====
-- routing/router.py, `AgentRouter.run_stage`: the loop over the route's providers.
pub mod Counting
pub mod Rounds
pub mod Outcome
pub mod Calls
pub mod Total
use wastech_orchestrator.Prelude.{
  ℕ, ◌+◌, leb, ltb, Bool, true, false, ◌&&◌, String, concat, Option, none, some, List, [], ◌∷◌,
  ◌++◌, is_some, if◌then◌else◌,
}
use wastech_orchestrator.Providers.Base.{
  ProviderId, codex, claude, ErrorClass, cancelled, session_unavailable, same_class, in_classes,
  transient_retryable, NormalizedError,
}
use wastech_orchestrator.Providers.Request.{AgentRunRequest, AgentRunResult, ProviderError}
use wastech_orchestrator.Routing.Config.{
  returned, raised, least, unparsable, incomparable, AgentRouter,
}
use wastech_orchestrator.Routing.Fallback.{fallback_allowed}
use wastech_orchestrator.Routing.Route.{ResolvedRoute}
use wastech_orchestrator.Routing.Attempts.{
  WorkingTreeSnapshot, PartialChange, ProviderAttempt, build_request, invoke,
}
use wastech_orchestrator.Routing.Retry.{retry_transient}

-- routing/snapshots.py
pub record SnapshotHook (W : Type 0) : Type 0 where
  pub capture : W → WorkingTreeSnapshot × W
  pub partial_change_since : WorkingTreeSnapshot → W → Option PartialChange × W

pub record StageOutcome : Type 0 where
  pub route : ResolvedRoute
  pub result : Option AgentRunResult
  pub provider_used : Option ProviderId
  pub stage_attempts : ℕ
  pub terminal_error : Option NormalizedError
  pub attempts : List ProviderAttempt
  pub partial_change : Option PartialChange

-- The local variables of `run_stage` that its loop changes.
pub record Progress (W : Type 0) : Type 0 where
  pub stage_attempts : ℕ
  pub audit_attempt : ℕ
  pub attempts : List ProviderAttempt
  pub last_error : Option NormalizedError
  pub earliest_reset : Option String
  pub partial : Option PartialChange
  pub world : W

-- How one round of the loop ends: with a KeyError or a TypeError, a `return`, a `break` or a `continue`.
pub data Round (W : Type 0) : Type 0 where
  escaped : Round W
  answered : AgentRunResult → ProviderId → Progress W → Round W
  broken : Progress W → Round W
  continued : Progress W → Round W

abbrev provider_value : ProviderId → String
provider_value codex = "codex"
provider_value claude = "claude"

abbrev pub cancelled_error : NormalizedError
cancelled_error = record {
  error_class = cancelled;
  message = "stop requested; agent cancelled, not falling back";
  failure_subtype = none;
  resets_at = none;
}

abbrev raised_error : ProviderError → NormalizedError
raised_error exc = record {
  error_class = exc.error_class;
  message = exc.message;
  failure_subtype = none;
  resets_at = exc.resets_at;
}

abbrev exhausted_error : ProviderId → ErrorClass → ProviderError → NormalizedError
exhausted_error pid last_class exc = record {
  error_class = last_class;
  message = concat "transient retries exhausted on " (provider_value pid);
  failure_subtype = none;
  resets_at = exc.resets_at;
}

module _ {W : Type 0} (router : AgentRouter W) where
  open router use {agents}

  -- `_earlier`; none is a TypeError, which `except ValueError` lets through.
  unfoldable pub earlier : Option String → Option String → Option (Option String)
  earlier current none = some current
  earlier none (some candidate) = some (some candidate)
  earlier (some current) (some candidate) = elim (router.min_instant current candidate) [
    | incomparable ↦ none
    | unparsable ↦ some (some current)
    | least instant ↦ some (some instant)
  ]

  unfoldable pub can_isolate : ProviderId → Bool
  can_isolate pid = elim (router.isolation_checks pid) [
    | none ↦ false
    | some check ↦ elim (agents.provider pid) [
      | none ↦ false
      | some cfg ↦ elim (check cfg) [ [] ↦ true | _ ∷ _ ↦ false ]
    ]
  ]

  -- A call's row, and what the exception of a call adds to it.
  abbrev pub recorded : ProviderAttempt → W → Progress W → Progress W
  recorded row w s = record s { attempts = s.attempts ++ (row ∷ []); world = w }

  abbrev pub noted : ProviderError → Option String → Progress W → Progress W
  noted exc instant s = record s { last_error = some (raised_error exc); earliest_reset = instant }

  abbrev pub refreshed : Option (SnapshotHook W × WorkingTreeSnapshot) → Progress W → Progress W
  refreshed none s = s
  refreshed (some (hook, before)) s =
      let (change, w) = hook.partial_change_since before s.world in
      record s { partial = change; world = w }

  module _ (before : Option (SnapshotHook W × WorkingTreeSnapshot)) where
    -- From `has_next` on: whether the next provider of the route is tried.
    unfoldable pub fall_back : ProviderId → Option ProviderId → ErrorClass → Progress W → Round W
    unfolding fallback_allowed can_isolate
    fall_back pid none error_class s = continued s
    fall_back pid (some next) error_class s =
        if leb agents.max_stage_attempts s.stage_attempts
        then continued s
        else elim (agents.provider pid) [
          | none ↦ escaped
          | some cfg ↦ elim (agents.provider next) [
            | none ↦ escaped
            | some next_cfg ↦
                if fallback_allowed error_class cfg.permission_profile next_cfg.permission_profile
                  (can_isolate next)
                then continued (refreshed before s)
                else broken s
          ]
        ]

    -- The retry of a lost session, fresh.
    unfoldable pub retry_fresh :
        ProviderId → Option ProviderId → AgentRunRequest → Progress W → Round W
    unfolding invoke fall_back earlier
    retry_fresh pid next req s =
        let number = s.audit_attempt + 1 in
        elim (invoke router pid (record req { session_id = none; attempt = number }) number
          s.world) [
            | none ↦ escaped
            | some call ↦
                let s' =
                  recorded call.row call.world
                    (record s { audit_attempt = number; stage_attempts = s.stage_attempts + 1 }) in
                elim call.ran [
                  | returned result ↦ answered result pid s'
                  | raised exc ↦ elim (earlier s'.earliest_reset exc.resets_at) [
                    | none ↦ escaped
                    | some instant ↦ fall_back pid next exc.error_class (noted exc instant s')
                  ]
                ]
          ]

    unfoldable pub retry_same :
        ProviderId → Option ProviderId → AgentRunRequest → ProviderError → Progress W → Round W
    unfolding retry_transient fall_back
    retry_same pid next req exc s =
        elim (retry_transient router pid req exc.error_class s.audit_attempt s.attempts s.world) [
          | none ↦ escaped
          | some retried ↦
              let s' = record s {
                audit_attempt = retried.audit_attempt;
                attempts = retried.attempts;
                world = retried.world;
              } in
              elim retried.result [
                | some result ↦ answered result pid s'
                | none ↦
                    fall_back pid next retried.last_class
                      (record s' { last_error = some (exhausted_error pid retried.last_class exc) })
              ]
        ]

    -- The `except` branch, its row already written.
    unfoldable pub recover :
        ProviderId → Option ProviderId → AgentRunRequest → ProviderError → Progress W → Round W
    unfolding retry_fresh retry_same fall_back same_class in_classes
    recover pid next req exc s =
        let (stopped, w) = router.is_cancelled s.world in
        let s' = record s { world = w } in
        if stopped
        then broken (record s' { last_error = some cancelled_error })
        else if same_class exc.error_class session_unavailable
            && (is_some req.session_id && ltb s.stage_attempts agents.max_stage_attempts)
        then retry_fresh pid next req s'
        else if in_classes exc.error_class transient_retryable && ltb 0 agents.retry_max_attempts
        then retry_same pid next req exc s'
        else fall_back pid next exc.error_class s'

    module _ (request : AgentRunRequest) where
      abbrev pub partial_for : Option ProviderId → Option PartialChange → Option PartialChange
      partial_for none change = none
      partial_for (some _) change = change

      -- One round, after its guard: the provider before, this one, and the one after.
      unfoldable pub hop : Option ProviderId → ProviderId → Option ProviderId → Progress W → Round W
      unfolding invoke build_request recover earlier
      hop previous pid next s =
          let number = s.audit_attempt + 1 in
          let req = build_request request number (partial_for previous s.partial) previous pid in
          elim (invoke router pid req number s.world) [
            | none ↦ escaped
            | some call ↦
                let s' =
                  recorded call.row call.world
                    (record s { audit_attempt = number; stage_attempts = s.stage_attempts + 1 }) in
                elim call.ran [
                  | returned result ↦ answered result pid s'
                  | raised exc ↦ elim (earlier s'.earliest_reset exc.resets_at) [
                    | none ↦ escaped
                    | some instant ↦ recover pid next req exc (noted exc instant s')
                  ]
                ]
          ]

      abbrev pub first : List ProviderId → Option ProviderId
      first [] = none
      first (pid ∷ pids) = some pid

      -- `for index, pid in enumerate(sequence)`
      unfoldable pub try_each : Option ProviderId → List ProviderId → Progress W → Round W
      unfolding hop
      try_each previous [] s = broken s
      try_each previous (pid ∷ pids) s = elim (leb agents.max_stage_attempts s.stage_attempts) [
        | true ↦ broken s
        | false ↦ elim (hop previous pid (first pids) s) [
          | escaped ↦ escaped
          | answered result used s' ↦ answered result used s'
          | broken s' ↦ broken s'
          | continued s' ↦ try_each (some pid) pids s'
        ]
      ]

  -- `replace(last_error, resets_at=earliest_reset)`, but for a stop.
  unfoldable pub settled_error : Option NormalizedError → Option String → Option NormalizedError
  unfolding same_class
  settled_error none instant = none
  settled_error (some e) instant =
      if same_class e.error_class cancelled then some e else some (record e { resets_at = instant })

  module _ (route : ResolvedRoute) where
    abbrev pub stage_outcome :
        Option AgentRunResult
        → Option ProviderId
        → Option NormalizedError
        → Progress W
        → StageOutcome
    stage_outcome result used terminal s = record {
      route = route;
      result = result;
      provider_used = used;
      stage_attempts = s.stage_attempts;
      terminal_error = terminal;
      attempts = s.attempts;
      partial_change = s.partial;
    }

    abbrev pub surface : Progress W → Option (StageOutcome × W)
    surface s =
        some (stage_outcome none none (settled_error s.last_error s.earliest_reset) s, s.world)

    unfoldable pub conclude : Round W → Option (StageOutcome × W)
    unfolding settled_error
    conclude escaped = none
    conclude (answered result pid s) = some (stage_outcome (some result) (some pid) none s, s.world)
    conclude (broken s) = surface s
    conclude (continued s) = surface s

    unfoldable pub sequence : List ProviderId
    sequence = elim route.fallback [
      | none ↦ route.primary ∷ []
      | some pid ↦ route.primary ∷ pid ∷ []
    ]

    abbrev pub no_progress : W → Progress W
    no_progress w = record {
      stage_attempts = 0;
      audit_attempt = 0;
      attempts = [];
      last_error = none;
      earliest_reset = none;
      partial = none;
      world = w;
    }

    abbrev pub captured :
        Option (SnapshotHook W) → W → Option (SnapshotHook W × WorkingTreeSnapshot) × W
    captured none w = (none, w)
    captured (some hook) w = let (before, w') = hook.capture w in (some (hook, before), w')

    -- None is an exception that escapes: a KeyError, where a provider of the route has no instance or no
    -- block, or the TypeError of `_earlier`.
    unfoldable pub run_stage :
        AgentRunRequest → Option (SnapshotHook W) → W → Option (StageOutcome × W)
    unfolding try_each conclude sequence
    run_stage request snapshot w =
        let (before, w') = captured snapshot w in
        conclude (try_each before request none sequence (no_progress w'))
