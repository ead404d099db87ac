-- ===== src/Flow/Reach.antt =====
-- core/flow/snapshot.py, `reachable_nodes`, and the two searches of core/flow/validator.py, which have
-- the same loop: a stack whose top is taken next, and the set of nodes that were seen.
pub mod Correct
pub mod Enough
use wastech_orchestrator.Prelude.{
  ℕ, zero, suc, ◌+◌, true, false, String, contains, Option, none, some, List, [], ◌∷◌, ◌++◌, map,
  reverse, length,
}
use wastech_orchestrator.Flow.Schema.{Edge}
use wastech_orchestrator.Flow.Snapshot.{FlowSnapshot, outgoing}

module _ (next : String → List String) where
  -- `while stack`, on fuel; `next` are the nodes that are pushed for one. The last one pushed is on top.
  unfoldable pub search_from : ℕ → List String → List String → Option (List String)
  search_from zero seen stack = none
  search_from (suc fuel) seen [] = some seen
  search_from (suc fuel) seen (x ∷ stack) = elim (contains seen x) [
    | true ↦ search_from fuel seen stack
    | false ↦ search_from fuel (x ∷ seen) (reverse (next x) ++ stack)
  ]

-- Each edge is pushed once, and each push is one round.
abbrev pub enough : List Edge → List String → ℕ
enough edges start = suc (length start + length edges)

unfoldable pub reachable_nodes : FlowSnapshot → String → Option (List String)
unfolding search_from
reachable_nodes snapshot start =
    search_from (λ node. map (λ e. e.to) (outgoing snapshot node))
      (enough snapshot.doc.edges (start ∷ [])) [] (start ∷ [])
