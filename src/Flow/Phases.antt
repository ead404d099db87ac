-- ===== src/Flow/Phases.antt =====
-- core/flow/engine_driver.py, `partition_decomposition`: the phases in which a split task is driven. A set
-- is a list; `ordered` lists the members of a frozenset in the order in which it is iterated.
pub mod Found
use wastech_orchestrator.Prelude.{
  Bool, true, false, not, ◌&&◌, ◌||◌, String, contains, Option, none, some, List, [], ◌∷◌, filter,
  find,
}
use wastech_orchestrator.Prelude.Dict
use wastech_orchestrator.Flow.Schema.{Edge, is_rework, DecompositionConfig, FlowDoc}
use wastech_orchestrator.Flow.Snapshot.{FlowSnapshot, outgoing}
use wastech_orchestrator.Flow.Reach.{reachable_nodes}
use wastech_orchestrator.Flow.Validator.{enters, exits}

pub record DecompositionRegions : Type 0 where
  pub pre : List String
  pub region : List String
  pub region_entry : String
  pub post_entry : String

pub data Partition : Type 0 where
  partitioned : DecompositionRegions → Partition
  -- raised
  no_block no_entry no_exit : Partition
  -- of the model alone
  out_of_fuel : Partition

-- next((e.to for e in snapshot.adjacency.get(proposed_by, ()) if e.to in region), None)
unfoldable pub region_entry_of : FlowSnapshot → List String → String → Option Edge
region_entry_of snapshot region proposed_by = find (enters region) (outgoing snapshot proposed_by)

-- The first edge that leaves the region from one of `ids` and is no rework edge.
unfoldable pub first_exit : FlowSnapshot → List String → List String → Option Edge
first_exit snapshot region [] = none
first_exit snapshot region (id ∷ ids) =
    let rest = first_exit snapshot region ids in
    elim (find (exits region) (outgoing snapshot id)) [ some e ↦ some e | none ↦ rest ]

-- frozenset(snapshot.nodes_by_id) - region - post
abbrev pub before : FlowSnapshot → List String → List String → List String
before snapshot region post =
    filter (λ id. not (contains region id) && not (contains post id))
      (Dict.keys snapshot.nodes_by_id)

unfoldable pub partition_at : FlowSnapshot → List String → Edge → Edge → Partition
unfolding reachable_nodes
partition_at snapshot region into out = elim (reachable_nodes snapshot out.to) [
  | none ↦ out_of_fuel
  | some post ↦ partitioned (record {
    pre = before snapshot region post;
    region = region;
    region_entry = into.to;
    post_entry = out.to;
  })
]

module _ (ordered : List String → List String) where
  unfoldable pub partition_from : FlowSnapshot → DecompositionConfig → Partition
  unfolding region_entry_of first_exit partition_at
  partition_from snapshot dec =
      let region = ordered dec.sub_flow in
      elim (region_entry_of snapshot region dec.proposed_by) [
        | none ↦ no_entry
        | some into ↦ elim (first_exit snapshot region region) [
          | none ↦ no_exit
          | some out ↦ partition_at snapshot region into out
        ]
      ]

  unfoldable pub partition_decomposition : FlowSnapshot → Partition
  unfolding partition_from
  partition_decomposition snapshot = elim snapshot.doc.decomposition [
    | none ↦ no_block
    | some dec ↦ partition_from snapshot dec
  ]
