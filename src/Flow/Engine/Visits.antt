-- ===== src/Flow/Engine/Visits.antt =====
-- The engines that a run goes through, round by round: budgets and trace.
use wastech_orchestrator.Prelude.{◌≡◌, sym, ap, ◌∙◌, subst, String, some, List, [], ◌∷◌, ◌++◌, In}
use mathlib.Core.List.{append-nil, append_assoc}
use wastech_orchestrator.Flow.Schema.{Edge}
use wastech_orchestrator.Flow.Snapshot.{FlowSnapshot, outgoing}
use wastech_orchestrator.Flow.Host.{Host, Setup, Engine}
use wastech_orchestrator.Flow.Engine.{next, iterate}
use wastech_orchestrator.Flow.Engine.Step.{IsIndexed, iterate-Transition}
use wastech_orchestrator.Flow.Engine.Budgets.{HasPlainLoops, IsWithin, Transition-IsWithin}

-- `e'` is an engine at the top of the loop, some rounds after `e`.
pub data Visits {W : Type 0} (host : Host W) (setup : Setup) (e : Engine W)
    : Engine W → Type 0 where
  here : Visits host setup e e
  then :
      {e' e'' : Engine W}
      → Visits host setup e e'
      → iterate host setup e' ≡ next e''
      → Visits host setup e e''

-- A way along declared edges: the nodes left behind, in order, and where it leads.
pub data Walk (snapshot : FlowSnapshot) (a : String) : List String → String → Type 0 where
  stay : Walk snapshot a [] a
  along :
      {path : List String} {b : String} (edge : Edge)
      → Walk snapshot a path b
      → In edge (outgoing snapshot b)
      → Walk snapshot a (path ++ b ∷ []) edge.to

module _ {W : Type 0} (host : Host W) (setup : Setup) where
  -- Where every node is indexed under its id and no loop has a reserved name: if the counters are
  -- within their caps at the start, as a fresh run's and a checkpoint's are, then after any number
  -- of rounds no plain loop's counter has passed its cap, and the global fix counter has not passed
  -- the global one.
  pub Visits-IsWithin :
      {e e' : Engine W}
      → IsIndexed setup.snapshot
      → HasPlainLoops setup.snapshot
      → IsWithin setup e.run_state
      → Visits host setup e e'
      → IsWithin setup e'.run_state
  Visits-IsWithin indexed plain h here = h
  Visits-IsWithin indexed plain h (then {e'} {e''} v step) =
      Transition-IsWithin setup (iterate-Transition host setup e' e'' indexed step) plain
        (Visits-IsWithin indexed plain h v)

  -- Where every node is indexed under its id: the nodes that a run from the current node `a`
  -- appends to its trace form a way along declared edges from `a` to the node that is current then.
  pub Visits-Walk :
      {e e' : Engine W} {a : String}
      → IsIndexed setup.snapshot
      → e.run_state.current_node ≡ some a
      → Visits host setup e e'
      → (path : List String) × (b : String) × (e'.run_state.current_node ≡ some b)
        × (e'.run_state.completed_nodes ≡ e.run_state.completed_nodes ++ path)
        × Walk setup.snapshot a path b
  Visits-Walk {e} {a = a} indexed start here =
      ([], a, start, sym (append-nil e.run_state.completed_nodes), stay)
  Visits-Walk {e} indexed start (then {e'} {e''} v step) =
      let (path, b, current, trace, way) = Visits-Walk indexed start v in
      let t = iterate-Transition host setup e' e'' indexed step in
      let same : t.node ≡ b = some_inj (sym t.here ∙ current) in
      (
        path ++ b ∷ [],
        t.edge.to,
        t.arrived,
        t.trace
            ∙ ap (λ c. c ++ t.node ∷ []) trace
            ∙ ap (λ n. (e.run_state.completed_nodes ++ path) ++ n ∷ []) same
            ∙ append_assoc e.run_state.completed_nodes path (b ∷ []),
        along t.edge way (subst (λ n. In t.edge (outgoing setup.snapshot n)) same t.declared),
      )
    where
      some_inj : {x y : String} → some x ≡ some y → x ≡ y
      some_inj p = cc
