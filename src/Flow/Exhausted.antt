-- ===== src/Flow/Exhausted.antt =====
-- core/loop_control.py, `exhausted_fix_loops`: the loops ahead of a node that have no round left. What
-- is reached is a list, in some order.
pub mod Ahead
use wastech_orchestrator.Prelude.{
  ℕ, Bool, ◌&&◌, String, Option, none, some, List, [], ◌∷◌, ◌++◌, leb, flat_map, if◌then◌else◌,
}
use wastech_orchestrator.Prelude.Dict
use wastech_orchestrator.Prelude.Dict.{Dict}
use wastech_orchestrator.Flow.Schema.{Edge, FlowDoc, is_rework}
use wastech_orchestrator.Flow.Snapshot.{FlowSnapshot, outgoing}
use wastech_orchestrator.Flow.Reach.{reachable_nodes}
use wastech_orchestrator.Flow.LoopControl.{loop_cap}

pub record ExhaustedLoop : Type 0 where
  pub loop : String
  pub node : String
  pub counter : ℕ
  pub cap : ℕ

module _ (snapshot : FlowSnapshot) (counters : Dict ℕ) (max_fix_cycles : ℕ) where
  abbrev pub exhausted_at : String → String → ExhaustedLoop
  exhausted_at node loop = record {
    loop = loop;
    node = node;
    counter = Dict.get_or counters loop 0;
    cap = loop_cap snapshot.doc.budgets max_fix_cycles loop;
  }

  -- What one edge adds.
  abbrev pub exhausted_edge : String → Edge → List ExhaustedLoop
  exhausted_edge node edge = elim edge.loop [
    | none ↦ []
    | some loop ↦
        let found = exhausted_at node loop in
        if is_rework edge && leb found.cap found.counter then found ∷ [] else []
  ]

  abbrev pub exhausted_node : String → List ExhaustedLoop
  exhausted_node node = flat_map (exhausted_edge node) (outgoing snapshot node)

  unfoldable pub exhausted_fix_loops : String → Option (List ExhaustedLoop)
  unfolding reachable_nodes
  exhausted_fix_loops start = elim (reachable_nodes snapshot start) [
    | none ↦ none
    | some nodes ↦ some (flat_map exhausted_node nodes)
  ]
