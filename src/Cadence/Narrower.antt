-- ===== src/Cadence/Narrower.antt =====
-- core/observe_cadence.py: what a narrower mode observes.
use wastech_orchestrator.Prelude.{
  ◌≡◌, refl, ◌⊎◌, inl, inr, true, false, String, contains, some, none, List, arith, Bool-cases,
}
use wastech_orchestrator.Prelude.Dict
use wastech_orchestrator.Flow.Schema.{
  ObserveMode, observe_all, observe_selected, observe_events, observe_none,
}
use wastech_orchestrator.Cadence.{mode_value, is_same_or_narrower, should_observe, resolve_mode}

-- The step has a trigger, and its node is not listed.
abbrev pub Unlisted : ObserveMode → ObserveMode → String → List String → Type 0
Unlisted flow_mode global_mode node_id include_nodes =
    (flow_mode ≡ observe_events)
    × (global_mode ≡ observe_selected)
    × (contains include_nodes node_id ≡ false)

-- A step that is observed under a flow's mode which is the same as the global one or narrower is observed
-- under the global mode too, unless the flow's is `events` and the global one `selected`, and the step's
-- node is not listed.
pub should_observe-narrower :
    (flow_mode global_mode : ObserveMode) (node_id : String)
    (include_nodes enabled triggers : List String)
    → is_same_or_narrower (mode_value flow_mode) (mode_value global_mode) ≡ true
    → should_observe
        (resolve_mode global_mode (some flow_mode))
        node_id
        include_nodes
        enabled
        triggers
      ≡ true
    → (should_observe (resolve_mode global_mode none) node_id include_nodes enabled triggers ≡ true)
      ⊎ Unlisted flow_mode global_mode node_id include_nodes
unfolding is_same_or_narrower should_observe resolve_mode Dict.get
should_observe-narrower observe_none g node_id include_nodes enabled triggers h o =
    absurd (ground (arith, o))
should_observe-narrower m observe_all node_id include_nodes enabled triggers h o = inl refl
should_observe-narrower observe_all observe_selected node_id include_nodes enabled triggers h o =
    absurd (ground (arith, h))
should_observe-narrower observe_all observe_events node_id include_nodes enabled triggers h o =
    absurd (ground (arith, h))
should_observe-narrower observe_all observe_none node_id include_nodes enabled triggers h o =
    absurd (ground (arith, h))
should_observe-narrower observe_selected observe_selected node_id include_nodes enabled triggers h
      o =
    inl o
should_observe-narrower observe_selected observe_events node_id include_nodes enabled triggers h o =
    absurd (ground (arith, h))
should_observe-narrower observe_selected observe_none node_id include_nodes enabled triggers h o =
    absurd (ground (arith, h))
should_observe-narrower observe_events observe_events node_id include_nodes enabled triggers h o =
    inl o
should_observe-narrower observe_events observe_none node_id include_nodes enabled triggers h o =
    absurd (ground (arith, h))
should_observe-narrower observe_events observe_selected node_id include_nodes enabled triggers h o =
    elim (Bool-cases (contains include_nodes node_id)) [
      | inl e ↦ inl e
      | inr e ↦ inr (refl, refl, e)
    ]
