-- ===== src/Flow/Validator/Runs.antt =====
-- core/flow/validator.py against core/flow/engine.py: a run of a valid flow stays on its nodes.
use wastech_orchestrator.Prelude.{
  ◌≡◌, sym, subst, true, String, some, [], In, inl, inr, arith, Option-cases,
}
use wastech_orchestrator.Prelude.Dict
use wastech_orchestrator.Flow.Schema.{FlowNode, FlowDoc}
use wastech_orchestrator.Flow.Snapshot.{FlowSnapshot, load_flow, loaded}
use wastech_orchestrator.Flow.Snapshot.Build.{load_flow-indexes, doc-load_flow, outgoing-declared}
use wastech_orchestrator.Flow.Host.{Host, Setup, Engine}
use wastech_orchestrator.Flow.Engine.Step.{IsIndexed, iterate-Transition}
use wastech_orchestrator.Flow.Engine.Visits.{Visits, here, then}
use wastech_orchestrator.Flow.Validator.{check_graph}
use wastech_orchestrator.Flow.Validator.WellFormed.{EndsFrom, check_graph-IsWellFormed}

-- The current node of an engine, which is one of the flow's.
abbrev pub AtKnown : {W : Type 0} → FlowSnapshot → Engine W → Type 0
AtKnown snap e =
    (b : String) × (n : FlowNode) × (e.run_state.current_node ≡ some b)
    × (Dict.get snap.nodes_by_id b ≡ some n)
    × EndsFrom snap b

is_some-get :
    (snap : FlowSnapshot) (k : String)
    → Dict.has snap.nodes_by_id k ≡ true
    → (n : FlowNode) × (Dict.get snap.nodes_by_id k ≡ some n)
is_some-get snap k h = elim (Option-cases (Dict.get snap.nodes_by_id k)) [
  | inl e ↦ absurd (ground arith)
  | inr (n, e) ↦ (n, e)
]

module _ {W : Type 0} (host : Host W) (setup : Setup) where
  -- If a loaded flow has no violations, then a run of it that is at one of its nodes is, after any number
  -- of rounds, at one of its nodes again, from which a way leads to a terminal node.
  pub Visits-AtKnown :
      (doc : FlowDoc) (fingerprint : String) {e e' : Engine W} (a : String)
      → load_flow doc fingerprint ≡ loaded setup.snapshot
      → check_graph setup.snapshot ≡ []
      → e.run_state.current_node ≡ some a
      → Dict.has setup.snapshot.nodes_by_id a ≡ true
      → Visits host setup e e'
      → AtKnown setup.snapshot e'
  Visits-AtKnown doc fingerprint a h v at known here =
      let (n, found) = is_some-get setup.snapshot a known in
      (a, n, at, found, (check_graph-IsWellFormed setup.snapshot v).ends a known)
  Visits-AtKnown doc fingerprint a h v at known (then {e'} {e''} w step) =
      let good = check_graph-IsWellFormed setup.snapshot v in
      let indexed : IsIndexed setup.snapshot = record {
        at_id = (load_flow-indexes doc fingerprint setup.snapshot h).1;
      } in
      let t = iterate-Transition host setup e' e'' indexed step in
      let (declared, _) =
        outgoing-declared doc fingerprint setup.snapshot t.node t.edge h t.declared in
      let target : Dict.has setup.snapshot.nodes_by_id t.edge.to ≡ true = good.has_target t.edge (
        subst (λ d. In t.edge d.edges) (sym (doc-load_flow doc fingerprint setup.snapshot h))
          declared) in
      let (n, found) = is_some-get setup.snapshot t.edge.to target in
      (t.edge.to, n, t.arrived, found, good.ends t.edge.to target)
