-- ===== src/Overrides/Applied.antt =====
-- core/node_overrides.py against core/flow/engine.py: what is resolved can be applied.
use wastech_orchestrator.Prelude.{
  ◌≡◌, refl, sym, ap, subst, ◌∙◌, ◌⊎◌, inl, inr, true, false, String, str_eq, eq_iff, Option, none,
  some, some_inj, [], ◌∷◌, ◌++◌, arith, Bool-cases, Option-cases, if◌then◌else◌,
}
use wastech_orchestrator.Prelude.Dict
use wastech_orchestrator.Prelude.Dict.{Dict, get-put}
use wastech_orchestrator.Providers.Base.{ProviderId}
use wastech_orchestrator.Providers.Reasoning.{coerce_provider}
use wastech_orchestrator.Routing.Config.{AgentsConfig}
use wastech_orchestrator.Routing.Route.{contains_id}
use wastech_orchestrator.Flow.Schema.{
  FlowNode, agent, evaluator, checks, tool, hitl, publish, node_id,
}
use wastech_orchestrator.Flow.Snapshot.{FlowSnapshot}
use wastech_orchestrator.Flow.Host.{NodeOverride, Setup}
use wastech_orchestrator.Flow.Execution.{replace_fields, apply_overrides}
use wastech_orchestrator.Flow.Engine.Step.{IsIndexed}
use wastech_orchestrator.Overrides.{
  TaskOverride, NodeOverrideResolution, global_primary, reasoning_ok, or_provider, provider_of,
  provider_field, reasoning_field, fields_for, is_toggle, has_fields, resolve_one, overlay_with,
  resolve_from, resolve_node_overrides,
}

-- An overlay for a node of the flow that takes one, with an allowed provider and a reasoning level that
-- the node's provider, if one is known, supports.
pub record IsValidFor (snapshot : FlowSnapshot) (agents : AgentsConfig) (id : String)
    (o : NodeOverride) : Type 0 where
  pub node : FlowNode
  pub own : Option ProviderId
  pub found : Dict.get snapshot.nodes_by_id id ≡ some node
  pub takes : provider_of node ≡ some own
  pub allowed : (p : ProviderId) → o.provider ≡ some p → contains_id agents.allowed p ≡ true
  pub supported :
      (level : String)
      → o.reasoning ≡ some level
      → reasoning_ok (or_provider o.provider (or_provider own (global_primary agents))) level ≡ true

module _ (agents : AgentsConfig) where
  provider_field-allowed :
      (id : String) (value : Option String) (p : ProviderId)
      → (provider_field agents id value).0 ≡ some p
      → contains_id agents.allowed p ≡ true
  unfolding provider_field
  provider_field-allowed id none p h = absurd (ground arith)
  provider_field-allowed id (some value) p h = elim (Option-cases (coerce_provider value)) [
    | inl e ↦ absurd (no_some (rw (provider_field, e) at h))
    | inr (q, e) ↦ elim (Bool-cases (contains_id agents.allowed q)) [
      | inl c ↦
          let same : q ≡ p = some_inj (rw (provider_field, e, c) at h) in
          subst (λ x. contains_id agents.allowed x ≡ true) same c
      | inr c ↦ absurd (no_some (rw (provider_field, e, c) at h))
    ]
  ]
    where
      no_some : none ≡ some p → ⊥
      no_some q = ground arith

  reasoning_field-supported :
      (id : String) (resolved : Option ProviderId) (value : Option String) (level : String)
      → (reasoning_field agents id resolved value).0 ≡ some level
      → reasoning_ok resolved level ≡ true
  unfolding reasoning_field
  reasoning_field-supported id resolved none level h = absurd (ground arith)
  reasoning_field-supported id resolved (some value) level h =
      elim (Bool-cases (reasoning_ok resolved value)) [
        | inl c ↦
            let same : value ≡ level = some_inj (rw c at h) in
            subst (λ x. reasoning_ok resolved x ≡ true) same c
        | inr c ↦ absurd (no_some (rw c at h))
      ]
    where
      no_some : none ≡ some level → ⊥
      no_some q = ground arith

module _ (snapshot : FlowSnapshot) (agents : AgentsConfig) where
  resolve_one-IsValidFor :
      (id : String) (override : TaskOverride) (o : NodeOverride)
      → (resolve_one snapshot agents id override).0 ≡ some o
      → IsValidFor snapshot agents id o
  unfolding resolve_one fields_for
  resolve_one-IsValidFor id override o h = elim (Bool-cases (is_toggle override)) [
    | inl t ↦ absurd (no_some (rw (resolve_one, t) at h))
    | inr t ↦ elim (Option-cases (Dict.get snapshot.nodes_by_id id)) [
      | inl e ↦ absurd (no_some (rw (resolve_one, t, e) at h))
      | inr (node, e) ↦ elim (Option-cases (provider_of node)) [
        | inl q ↦ absurd (no_some (rw (resolve_one, t, e, q) at h))
        | inr (own, q) ↦
            valid node own e q (Bool-cases (has_fields (fields_for agents id own override).0))
              (rw (resolve_one, t, e, q) at h)
      ]
    ]
  ]
    where
      no_some : none ≡ some o → ⊥
      no_some q = ground arith

      valid :
          (node : FlowNode) (own : Option ProviderId)
          → Dict.get snapshot.nodes_by_id id ≡ some node
          → provider_of node ≡ some own
          → (has_fields (fields_for agents id own override).0 ≡ true)
            ⊎ (has_fields (fields_for agents id own override).0 ≡ false)
          → (if has_fields (fields_for agents id own override).0
              then some (fields_for agents id own override).0
              else none)
            ≡ some o
          → IsValidFor snapshot agents id o
      valid node own e q (inr f) k = absurd (no_some (rw f at k))
      valid node own e q (inl f) k =
          let same : (fields_for agents id own override).0 ≡ o = some_inj (rw f at k) in
          let resolved =
            or_provider (provider_field agents id override.provider).0
              (or_provider own (global_primary agents)) in
          subst (IsValidFor snapshot agents id) same (record {
            node = node;
            own = own;
            found = e;
            takes = q;
            allowed = λ p. provider_field-allowed agents id override.provider p;
            supported =
                λ level. reasoning_field-supported agents id resolved override.reasoning level;
          })

  abbrev AllValid : Dict NodeOverride → Type 0
  AllValid overlay =
      (id : String) (o : NodeOverride)
      → Dict.get overlay id ≡ some o
      → IsValidFor snapshot agents id o

  AllValid-overlay_with :
      (overlay : Dict NodeOverride) (id : String) (fields : Option NodeOverride)
      → AllValid overlay
      → ((o : NodeOverride) → fields ≡ some o → IsValidFor snapshot agents id o)
      → AllValid (overlay_with overlay id fields)
  AllValid-overlay_with overlay id none h v j o found = h j o found
  AllValid-overlay_with overlay id (some fields) h v j o found = elim (Bool-cases (str_eq id j)) [
    | inl e ↦
        let same : fields ≡ o = some_inj (rw (get-put overlay id j fields, e) at found) in
        subst (λ k. IsValidFor snapshot agents k o) ((eq_iff id j).0 e) (v o (ap some same))
    | inr e ↦ h j o (rw (get-put overlay id j fields, e) at found)
  ]

  resolve_from-AllValid :
      (done : NodeOverrideResolution) (overrides : Dict TaskOverride)
      → AllValid done.overlay
      → AllValid (resolve_from snapshot agents done overrides).overlay
  unfolding resolve_from
  resolve_from-AllValid done [] h = h
  resolve_from-AllValid done ((id, override) ∷ rest) h =
      let (fields, warnings) = resolve_one snapshot agents id override in
      resolve_from-AllValid
        (record {
          overlay = overlay_with done.overlay id fields;
          warnings = done.warnings ++ warnings;
        })
        rest (AllValid-overlay_with done.overlay id fields h (resolve_one-IsValidFor id override))

  -- Whatever a task asks for: what is overlaid on a node is on an agent or evaluator node of the flow, with
  -- a provider that is allowed, and with a reasoning level that the node's provider supports, or that
  -- some provider has where none is known for the node.
  pub resolve_node_overrides-IsValidFor :
      (overrides : Dict TaskOverride) (id : String) (o : NodeOverride)
      → Dict.get (resolve_node_overrides snapshot agents overrides).overlay id ≡ some o
      → IsValidFor snapshot agents id o
  unfolding resolve_node_overrides Dict.get
  resolve_node_overrides-IsValidFor overrides =
      resolve_from-AllValid (record { overlay = []; warnings = [] }) overrides
        (λ id o h. absurd (ground arith))

replace_fields-some :
    (n : FlowNode) (own : Option ProviderId) (o : NodeOverride)
    → provider_of n ≡ some own
    → (m : FlowNode) × (replace_fields n o ≡ some m)
unfolding provider_of replace_fields
replace_fields-some (agent n) own o h = (_, refl)
replace_fields-some (evaluator n) own o h = (_, refl)
replace_fields-some (checks n) own o h = absurd (ground arith)
replace_fields-some (tool n) own o h = absurd (ground arith)
replace_fields-some (hitl n) own o h = absurd (ground arith)
replace_fields-some (publish n) own o h = absurd (ground arith)

-- If the engine is given the overlay that a task's overrides resolve to, against the flow that it runs, then
-- applying it to a node of that flow never fails.
pub apply_overrides-resolved :
    (setup : Setup) (agents : AgentsConfig) (overrides : Dict TaskOverride) (id : String)
    (n : FlowNode)
    → IsIndexed setup.snapshot
    → setup.node_overrides ≡ (resolve_node_overrides setup.snapshot agents overrides).overlay
    → Dict.get setup.snapshot.nodes_by_id id ≡ some n
    → (m : FlowNode) × (apply_overrides setup n ≡ some m)
unfolding apply_overrides
apply_overrides-resolved setup agents overrides id n indexed same found =
    elim (Option-cases (Dict.get setup.node_overrides (node_id n))) [
      | inl e ↦ (n, rw (apply_overrides, e) refl)
      | inr (o, e) ↦
          let valid =
            resolve_node_overrides-IsValidFor setup.snapshot agents overrides (node_id n) o
              (subst (λ d. Dict.get d (node_id n) ≡ some o) same e) in
          let at_id : node_id n ≡ id = indexed.at_id id n found in
          let this : valid.node ≡ n =
            some_inj (sym valid.found ∙ ap (Dict.get setup.snapshot.nodes_by_id) at_id ∙ found) in
          let (m, r) =
            replace_fields-some n valid.own o
              (subst (λ k. provider_of k ≡ some valid.own) this valid.takes) in
          (m, rw (apply_overrides, e) r)
    ]
