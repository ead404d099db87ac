-- ===== src/Routing/Attempts/Portable.antt =====
-- routing/router.py, `_build_request`: what a substitute provider is handed.
use wastech_orchestrator.Prelude.{ℕ, ◌≡◌, ◌≢◌, refl, Bool, String, Option, none, some, List, []}
use wastech_orchestrator.Providers.Base.{ProviderId, codex, claude}
use wastech_orchestrator.Providers.Request.{AgentRunRequest, ProviderWriteGuardPolicy}
use wastech_orchestrator.Routing.Attempts.{PartialChange, build_request}

-- What every request of a stage shares: its grants, its limits and its prompt.
abbrev pub task_of :
    AgentRunRequest
    → String
      × (String × (String × (ℕ × (Bool × (Bool × (Option ProviderWriteGuardPolicy × Bool))))))
task_of r = (
  r.permission_profile,
  (
    r.working_directory,
    (
      r.prompt,
      (r.timeout_seconds, (r.network_access, (r.git_evidence, (r.write_guard, r.allow_skills)))),
    ),
  ),
)

-- A provider's own settings.
abbrev pub settings_of : AgentRunRequest → Option String × (List String × Option String)
settings_of r = (r.model, (r.extra_args, r.session_id))

-- However an attempt is built, it has the request's permission profile, directory, prompt, timeout,
-- network access, git evidence, write guard and skills grant.
pub task_of-build_request :
    (request : AgentRunRequest) (n : ℕ) (change : Option PartialChange)
    (previous : Option ProviderId) (pid : ProviderId)
    → task_of (build_request request n change previous pid) ≡ task_of request
unfolding build_request
task_of-build_request r n none none pid = refl
task_of-build_request r n (some c) none pid = refl
task_of-build_request r n none (some codex) codex = refl
task_of-build_request r n none (some codex) claude = refl
task_of-build_request r n none (some claude) codex = refl
task_of-build_request r n none (some claude) claude = refl
task_of-build_request r n (some c) (some codex) codex = refl
task_of-build_request r n (some c) (some codex) claude = refl
task_of-build_request r n (some c) (some claude) codex = refl
task_of-build_request r n (some c) (some claude) claude = refl

-- An attempt on another provider than the one before has no model, no extra arguments and no
-- session.
pub settings_of-build_request :
    (request : AgentRunRequest) (n : ℕ) (change : Option PartialChange) (p q : ProviderId)
    → p ≢ q
    → settings_of (build_request request n change (some p) q) ≡ (none, ([], none))
unfolding build_request
settings_of-build_request r n change codex codex d = absurd (d refl)
settings_of-build_request r n change codex claude d = refl
settings_of-build_request r n change claude codex d = refl
settings_of-build_request r n change claude claude d = absurd (d refl)
