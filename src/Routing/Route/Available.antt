-- ===== src/Routing/Route/Available.antt =====
-- routing/router.py, `resolve_route`: the route that a node gets can be run.
use wastech_orchestrator.Prelude.{
  ◌≡◌, refl, sym, ap, ◌∙◌, subst, inl, inr, true, String, Option, some, List, [], ◌∷◌, ◌++◌,
  is_some, or_default, arith, Bool-cases, if◌then◌else◌,
}
use mathlib.Core.List.{append-nil}
use wastech_orchestrator.Providers.Base.{ProviderId, same_provider}
use wastech_orchestrator.Routing.Config.{AgentRouter}
use wastech_orchestrator.Routing.Route.{
  ResolvedRoute, Issue, Role, primary_role, fallback_role, role_issues, checked, resolved,
  contains_id, other_allowed_provider, assert_available, resolve_route,
}

module _ {W : Type 0} (router : AgentRouter W) where
  -- Allowed, with a block of its own and an instance.
  pub record IsServed (pid : ProviderId) : Type 0 where
    pub allowed : contains_id router.agents.allowed pid ≡ true
    pub configured : is_some (router.agents.provider pid) ≡ true
    pub instantiated : is_some (router.providers pid) ≡ true

  pub record IsRunnable (route : ResolvedRoute) : Type 0 where
    pub primary_served : IsServed route.primary
    pub fallback_served : (pid : ProviderId) → route.fallback ≡ some pid → IsServed pid

  checked-resolved :
      (r : ResolvedRoute) (issues : List Issue) (route : ResolvedRoute)
      → checked router r issues ≡ resolved route
      → (issues ≡ []) × (r ≡ route)
  checked-resolved r [] route h = (refl, cc)
  checked-resolved r (issue ∷ issues) route h = absurd (ground arith)

  role_issues-clear :
      (role : Role) (pid : ProviderId) (rest : List Issue)
      → role_issues router role (some pid) ++ rest ≡ []
      → IsServed pid × (rest ≡ [])
  role_issues-clear role pid rest h = elim (Bool-cases (contains_id router.agents.allowed pid)) [
    | inr a ↦ absurd (ground arith)
    | inl a ↦ elim (Bool-cases (is_some (router.agents.provider pid))) [
      | inr b ↦ absurd (ground arith)
      | inl b ↦ elim (Bool-cases (is_some (router.providers pid))) [
        | inr c ↦ absurd (ground arith)
        | inl c ↦ (record { allowed = a; configured = b; instantiated = c }, ground arith)
      ]
    ]
  ]

  -- The primary of a route that is resolved, and its fallback if it has one, is allowed, has a
  -- block of its own in the configuration, and has an instance.
  pub resolve_route-IsRunnable :
      (global_primary : ProviderId) (node_id : String) (provider : Option ProviderId)
      (route : ResolvedRoute)
      → resolve_route router global_primary node_id provider ≡ resolved route
      → IsRunnable route
  unfolding resolve_route assert_available
  resolve_route-IsRunnable g n p route h =
      let primary = or_default p g in
      let fallback =
        if same_provider primary g then other_allowed_provider router.agents primary else some g in
      let (clear, same) = checked-resolved _ (assert_available router primary fallback) route h in
      let (first, rest) = role_issues-clear primary_role primary _ clear in
      subst IsRunnable same (record {
        primary_served = first;
        fallback_served = λ pid e.
            (role_issues-clear fallback_role pid []
              (append-nil _ ∙ ap (role_issues router fallback_role) (sym e) ∙ rest)).0;
      })
