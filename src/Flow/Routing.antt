-- ===== src/Flow/Routing.antt =====
-- core/flow/engine.py: `skip_outcome`, `entry_node_id`, and the choice of the outgoing edge
-- (`FlowEngine._select_edge`).
pub mod Select
use wastech_orchestrator.Prelude.{
  ℕ, ◌+◌, Bool, true, false, String, Option, none, some, List, [], ◌∷◌, str_eq, starts_with, filter,
  find, if◌then◌else◌, ◌==◌,
}
use wastech_orchestrator.Prelude.Dict
use wastech_orchestrator.Prelude.Dict.{Dict}
use wastech_orchestrator.Flow.Schema.{FlowNode, agent, evaluator, checks, tool, hitl, publish, Edge}
use wastech_orchestrator.Flow.Snapshot.{FlowSnapshot}
use wastech_orchestrator.Flow.Host.{NodeOutcome, Fault, internal_error, not_one_entry}

-- NodeOutcome(kind)
abbrev pub plain_outcome : String → NodeOutcome
plain_outcome kind = record {
  kind = kind;
  findings = [];
  structured_output = none;
  final_message = none;
  rework_exhausted = false;
  rework_limit = none;
  provider_fallback = none;
  unexpected_write = false;
  git_control_drift = none;
  adopted_commits = [];
  gating_findings_name_no_path = false;
}

unfoldable pub skip_outcome : FlowNode → NodeOutcome
skip_outcome (evaluator _) = plain_outcome "accept"
skip_outcome (checks _) = plain_outcome "pass"
skip_outcome (tool _) = plain_outcome "pass"
skip_outcome (agent _) = plain_outcome "done"
skip_outcome (hitl _) = plain_outcome "done"
skip_outcome (publish _) = plain_outcome "done"

pub data Selected : Type 0 where
  chosen : Edge → Selected
  unmatched : Fault → Selected

-- edge.outcome == kind
abbrev pub outcome_is : String → Edge → Bool
outcome_is kind edge = elim edge.outcome [ none ↦ false | some o ↦ str_eq o kind ]

-- edge.outcome is None
abbrev pub is_unconditional : Edge → Bool
is_unconditional edge = elim edge.outcome [ none ↦ true | some _ ↦ false ]

-- The edge of a list that has exactly one.
abbrev pub only : List Edge → Option Edge
only [] = none
only (edge ∷ []) = some edge
only (_ ∷ _ ∷ _) = none

-- `kind == "done"` and exactly one unconditional edge
abbrev pub unconditional_for : String → List Edge → Option Edge
unconditional_for kind edges =
    if str_eq kind "done" then only (filter is_unconditional edges) else none

abbrev chosen_or : Fault → Option Edge → Selected
chosen_or fault none = unmatched fault
chosen_or fault (some edge) = chosen edge

unfoldable pub select_edge : String → List Edge → String → Selected
select_edge node edges kind =
    let fault = internal_error node kind in
    if starts_with kind "route:"
    then chosen_or fault (find (outcome_is kind) edges)
    else elim (find (outcome_is kind) edges) [
      | some edge ↦ chosen edge
      | none ↦ chosen_or fault (unconditional_for kind edges)
    ]

-- `dict.fromkeys(snapshot.nodes_by_id, 0)`
unfoldable pub zero_counts : Dict FlowNode → Dict ℕ
zero_counts [] = []
zero_counts ((id, _) ∷ rest) = (id, 0) ∷ zero_counts rest

-- if edge.to in incoming: incoming[edge.to] += 1
unfoldable pub count_edge : Dict ℕ → Edge → Dict ℕ
count_edge incoming edge = elim (Dict.get incoming edge.to) [
  | none ↦ incoming
  | some n ↦ Dict.put incoming edge.to (n + 1)
]

unfoldable pub count_edges : Dict ℕ → List Edge → Dict ℕ
unfolding count_edge
count_edges incoming [] = incoming
count_edges incoming (edge ∷ rest) = count_edges (count_edge incoming edge) rest

unfoldable pub count_incoming : Dict ℕ → Dict (List Edge) → Dict ℕ
unfolding count_edges
count_incoming incoming [] = incoming
count_incoming incoming ((_, edges) ∷ rest) = count_incoming (count_edges incoming edges) rest

-- [nid for nid, n in incoming.items() if n == 0]
unfoldable pub zero_keys : Dict ℕ → List String
zero_keys [] = []
zero_keys ((id, n) ∷ rest) = let others = zero_keys rest in if n == 0 then id ∷ others else others

pub data Entry : Type 0 where
  entry : String → Entry
  no_entry : Fault → Entry

abbrev pub the_entry : List String → Entry
the_entry (id ∷ []) = entry id
the_entry _ = no_entry not_one_entry

unfoldable pub entry_node_id : FlowSnapshot → Entry
unfolding zero_counts count_incoming zero_keys
entry_node_id snapshot =
    the_entry (zero_keys (count_incoming (zero_counts snapshot.nodes_by_id) snapshot.adjacency))
