-- ===== src/Examples/Stages.antt =====
-- The router's theorems at two providers, of which the first has no network.
use wastech_orchestrator.Prelude.{
  ℕ, ◌+◌, ◌≡◌, refl, sym, subst, some_inj, none, some, [], ◌∷◌, true, false, ◌&&◌, String,
  if◌then◌else◌, arith,
}
use wastech_orchestrator.Prelude.Dict
use wastech_orchestrator.Prelude.Chars.{occurs}
use wastech_orchestrator.Providers.Base.{
  ProviderId, codex, claude, succeeded, permission_denied, network_unavailable,
}
use wastech_orchestrator.Providers.Profiles.{is_same_or_stricter}
use wastech_orchestrator.Providers.Request.{AgentRunRequest, AgentRunResult, ProviderError}
use wastech_orchestrator.Routing.Config.{
  ProviderConfig, AgentProvider, returned, raised, least, incomparable, AgentRouter,
}
use wastech_orchestrator.Routing.Fallback.{fallback_allowed}
use wastech_orchestrator.Routing.Fallback.Safety.{Allows, fallback_allowed-Allows}
use wastech_orchestrator.Routing.Route.{ResolvedRoute, resolved, resolve_route, flow_node}
use wastech_orchestrator.Routing.Route.Available.{IsRunnable, resolve_route-IsRunnable}
use wastech_orchestrator.Routing.Attempts.{ProviderAttempt}
use wastech_orchestrator.Routing.Stage.{StageOutcome, run_stage}
use wastech_orchestrator.Routing.Stage.Calls.{IsComparable}
use wastech_orchestrator.Routing.Stage.Total.{run_stage_returns}
use wastech_orchestrator.Routing.Stage.Outcome.{IsAccounted, run_stage-IsAccounted}

abbrev request : AgentRunRequest
request = record {
  task_id = "t";
  node_id = "n";
  working_directory = "/w";
  prompt = "do";
  permission_profile = "workspace-write";
  timeout_seconds = 60;
  attempt = 0;
  node_run_id = 1;
  task_path = none;
  plan_path = none;
  diff_path = none;
  change_overview_path = none;
  diff_base = none;
  check_artifacts_path = none;
  review_artifacts_path = none;
  human_input_path = none;
  conflicts_path = none;
  rework_report_path = none;
  supervisor_packet_path = none;
  output_schema = none;
  model = some "gpt";
  extra_args = "-x" ∷ [];
  reasoning = some "minimal";
  session_id = some "s";
  continuation_prompt = none;
  resume_baseline_output_tokens = none;
  network_access = false;
  git_evidence = false;
  write_guard = none;
  security_preamble = none;
  change_guidance = none;
  required_skills = [];
  allow_skills = false;
}

abbrev result : AgentRunResult
result = record {
  status = succeeded;
  provider = "claude";
  node_id = "n";
  attempt = 3;
  exit_code = none;
  started_at = "";
  finished_at = "";
  final_message = none;
  structured_output = none;
  usage = none;
  normalized_usage = none;
  model = none;
  reasoning = none;
  stdout_path = none;
  stderr_path = none;
  event_log_path = none;
  error = none;
}

abbrev offline : ProviderError
offline = record {
  error_class = network_unavailable;
  message = "no network";
  resets_at = some "2026-01-01T00:00:00Z";
  result = none;
}

-- The world counts the calls.
abbrev provider : ProviderId → AgentProvider ℕ
provider codex req w = (raised offline, w + 1)
provider claude req w = (returned result, w + 1)

abbrev block : ProviderId → ProviderConfig
block codex = record {
  model = "gpt";
  permission_profile = "workspace-write";
  reasoning = none;
  primary = false;
}
block claude = record {
  model = "opus";
  permission_profile = "workspace-write";
  reasoning = none;
  primary = true;
}

abbrev router : AgentRouter ℕ
router = record {
  agents = record {
    allowed = codex ∷ claude ∷ [];
    max_stage_attempts = 2;
    provider_ids = codex ∷ claude ∷ [];
    provider = λ pid. some (block pid);
    retry_max_attempts = 1;
  };
  providers = λ pid. some (provider pid);
  backoff = λ k w. w;
  is_cancelled = λ w. (false, w);
  isolation_checks = λ pid. none;
  min_instant = λ a b. if occurs 90 a && occurs 90 b then least a else incomparable;
}

abbrev route : ResolvedRoute
route = record { node_id = "n"; primary = codex; fallback = some claude; source = flow_node }

route_resolved : resolve_route router claude "n" (some codex) ≡ resolved route
unfolding resolve_route
route_resolved = refl

resolve_route-IsRunnable_example : IsRunnable router route
resolve_route-IsRunnable_example =
    resolve_route-IsRunnable router claude "n" (some codex) route route_resolved

fallback_allowed-Allows_example : Allows "workspace-write" "read-only" false permission_denied
unfolding fallback_allowed is_same_or_stricter Dict.get
fallback_allowed-Allows_example =
    fallback_allowed-Allows permission_denied "workspace-write" "read-only" false refl

abbrev failed_row : ℕ → ProviderAttempt
failed_row n = record {
  provider = codex;
  attempt = n;
  status = none;
  error_class = some network_unavailable;
  result = none;
  model = some "gpt";
  reasoning = some "minimal";
  resumed = true;
}

abbrev last_row : ProviderAttempt
last_row = record {
  provider = claude;
  attempt = 3;
  status = some succeeded;
  error_class = none;
  result = some result;
  model = some "opus";
  reasoning = some "low";
  resumed = false;
}

-- Two calls of `codex`, the second a retry, and one of `claude`.
abbrev outcome : StageOutcome
outcome = record {
  route = route;
  result = some result;
  provider_used = some claude;
  stage_attempts = 2;
  terminal_error = none;
  attempts = failed_row 1 ∷ failed_row 2 ∷ last_row ∷ [];
  partial_change = none;
}

stage_run : run_stage router route request none 0 ≡ some (outcome, 3)
unfolding run_stage
stage_run = refl

run_stage-IsAccounted_example : IsAccounted router outcome
run_stage-IsAccounted_example =
    run_stage-IsAccounted router request route none 0 3 outcome (omega arith) stage_run

-- Every instant told ends in a `Z`.
abbrev HasZ : String → Type 0
HasZ instant = occurs 90 instant ≡ true

provider_tells :
    (pid : ProviderId) (req : AgentRunRequest) (w : ℕ) (exc : ProviderError) (instant : String)
    → (provider pid req w).0 ≡ raised exc
    → exc.resets_at ≡ some instant
    → HasZ instant
unfolding occurs
provider_tells codex req w exc instant q r =
    let told : some "2026-01-01T00:00:00Z" ≡ some instant = ground (arith, q, r) in
    subst HasZ (some_inj told) refl
provider_tells claude req w exc instant q r = absurd (ground (arith, q))

router-IsComparable : IsComparable router HasZ
router-IsComparable = record {
  told = λ pid run req w exc instant p q r.
      provider_tells pid req w exc instant
        (subst (λ f. (f req w).0 ≡ raised exc) (sym (some_inj p)) q) r;
  compared = λ a b h k e. ground (arith, h, k, e);
  one_of = λ a b c h k e. ground (arith, h, k, e);
}

run_stage_returns_example :
    (o : StageOutcome) × (w' : ℕ) × (run_stage router route request none 0 ≡ some (o, w'))
run_stage_returns_example =
    run_stage_returns router HasZ router-IsComparable request route none 0
      (resolve_route-IsRunnable router claude "n" (some codex) route route_resolved)
