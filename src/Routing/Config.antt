-- ===== src/Routing/Config.antt =====
-- config/schema.py, the parts of `OrchestratorConfig` that the router reads, and the router's own
-- fields. The injected providers and clocks are functions over a world `W`. A delay is a float, so
-- `backoff k` stands for the sleep of `min(base_delay_s * 2**k, max_delay_s)` seconds, and
-- `min_instant` for `min(current, candidate, key=datetime.fromisoformat)`.
use wastech_orchestrator.Prelude.{ℕ, Bool, String, Option, none, some, List, str_eq, if◌then◌else◌}
use wastech_orchestrator.Providers.Base.{ProviderId}
use wastech_orchestrator.Providers.Request.{AgentRunRequest, AgentRunResult, ProviderError}

pub record ProviderConfig : Type 0 where
  pub model : String
  pub permission_profile : String
  pub reasoning : Option String
  pub primary : Bool

-- `value or rest`, where the value may be None or empty.
abbrev or_else : Option String → Option String → Option String
or_else none rest = rest
or_else (some v) rest = if str_eq v "" then rest else some v

unfoldable pub effective_model : ProviderConfig → Option String → Option String
effective_model cfg override = or_else override (or_else (some cfg.model) none)

unfoldable pub effective_reasoning : ProviderConfig → Option String → Option String
effective_reasoning cfg override = or_else override (or_else cfg.reasoning none)

pub record AgentsConfig : Type 0 where
  pub allowed : List ProviderId
  pub max_stage_attempts : ℕ
  -- `providers.items()`, and the lookup
  pub provider_ids : List ProviderId
  pub provider : ProviderId → Option ProviderConfig
  -- `retry.max_attempts`
  pub retry_max_attempts : ℕ

-- What `AgentProvider.run` does: it returns, or raises a `ProviderError`.
pub data Ran : Type 0 where
  returned : AgentRunResult → Ran
  raised : ProviderError → Ran

abbrev pub AgentProvider : Type 0 → Type 0
AgentProvider W = AgentRunRequest → W → Ran × W

-- The least of two texts by their instants; or a ValueError, of a text that is no instant; or a TypeError,
-- of an instant with an offset and one without.
pub data Least : Type 0 where
  least : String → Least
  unparsable incomparable : Least

pub record AgentRouter (W : Type 0) : Type 0 where
  pub agents : AgentsConfig
  pub providers : ProviderId → Option (AgentProvider W)
  pub backoff : ℕ → W → W
  pub is_cancelled : W → Bool × W
  pub isolation_checks : ProviderId → Option (ProviderConfig → List String)
  pub min_instant : String → String → Least
