-- ===== src/Routing/Attempts.antt =====
-- routing/router.py, one call of a provider: the request that it is handed, and the audit row that
-- records it. routing/snapshots.py gives the partial change.
pub mod Portable
use wastech_orchestrator.Prelude.{
  ℕ, Bool, String, Option, none, some, List, [], is_some, if◌then◌else◌,
}
use mathlib.Core.Option.{map as map_option}
use wastech_orchestrator.Providers.Base.{ProviderId, same_provider, RunStatus, ErrorClass}
use wastech_orchestrator.Providers.Capabilities.{map_reasoning_for_provider_switch}
use wastech_orchestrator.Providers.Request.{AgentRunRequest, AgentRunResult}
use wastech_orchestrator.Routing.Config.{
  ProviderConfig, effective_model, effective_reasoning, Ran, returned, raised, AgentRouter,
}

pub record WorkingTreeSnapshot : Type 0 where
  pub commit_sha : String
  pub porcelain_status : String
  pub diff_checksum : String
  pub artifacts : List String

pub record PartialChange : Type 0 where
  pub before : WorkingTreeSnapshot
  pub after : WorkingTreeSnapshot
  pub diff_path : String
  pub note : String

pub record ProviderAttempt : Type 0 where
  pub provider : ProviderId
  pub attempt : ℕ
  pub status : Option RunStatus
  pub error_class : Option ErrorClass
  pub result : Option AgentRunResult
  pub model : Option String
  pub reasoning : Option String
  pub resumed : Bool

abbrev with_partial : Option PartialChange → AgentRunRequest → AgentRunRequest
with_partial none req = req
with_partial (some change) req = record req {
  diff_path = some change.diff_path;
  change_overview_path = none;
  diff_base = none;
  change_guidance = none;
}

abbrev switched : ProviderId → ProviderId → Option String → AgentRunRequest → AgentRunRequest
switched from_provider to_provider reasoning req =
    if same_provider from_provider to_provider then req else record req {
      model = none;
      reasoning = map_reasoning_for_provider_switch from_provider to_provider reasoning;
      extra_args = [];
      session_id = none;
    }

abbrev switched_from :
    Option ProviderId → ProviderId → Option String → AgentRunRequest → AgentRunRequest
switched_from none to_provider reasoning req = req
switched_from (some from_provider) to_provider reasoning req =
    switched from_provider to_provider reasoning req

-- `from_provider` may be None; every caller passes a `to_provider`.
unfoldable pub build_request :
    AgentRunRequest → ℕ → Option PartialChange → Option ProviderId → ProviderId → AgentRunRequest
unfolding same_provider map_reasoning_for_provider_switch
build_request request attempt change from_provider to_provider =
    switched_from from_provider to_provider request.reasoning
      (with_partial change (record request { attempt = attempt }))

-- What the three places that record a call put in its row: a raised error has no status.
abbrev pub row_status : Ran → Option RunStatus
row_status (returned result) = some result.status
row_status (raised exc) = none

abbrev pub row_error_class : Ran → Option ErrorClass
row_error_class (returned result) = map_option (λ e. e.error_class) result.error
row_error_class (raised exc) = some exc.error_class

abbrev pub row_result : Ran → Option AgentRunResult
row_result (returned result) = some result
row_result (raised exc) = exc.result

unfoldable pub attempt_row :
    ProviderConfig → ProviderId → AgentRunRequest → ℕ → Ran → ProviderAttempt
unfolding effective_model effective_reasoning
attempt_row cfg pid req attempt ran = record {
  provider = pid;
  attempt = attempt;
  status = row_status ran;
  error_class = row_error_class ran;
  result = row_result ran;
  model = effective_model cfg req.model;
  reasoning = effective_reasoning cfg req.reasoning;
  resumed = is_some req.session_id;
}

pub record Call (W : Type 0) : Type 0 where
  pub ran : Ran
  pub row : ProviderAttempt
  pub world : W

-- `self._providers[pid].run(req)` and its row; none is the KeyError of a missing instance or block.
unfoldable pub invoke :
    {W : Type 0} → AgentRouter W → ProviderId → AgentRunRequest → ℕ → W → Option (Call W)
unfolding attempt_row
invoke router pid req attempt w = elim (router.providers pid) [
  | none ↦ none
  | some run ↦ elim (router.agents.provider pid) [
    | none ↦ none
    | some cfg ↦
        let (ran, w') = run req w in
        some (record { ran = ran; row = attempt_row cfg pid req attempt ran; world = w' })
  ]
]
