-- ===== src/Flow/Engine.antt =====
-- core/flow/engine.py, `FlowEngine.run`: one iteration of its loop, and the loop on fuel.
pub mod Parts
pub mod Step
pub mod Budgets
pub mod Visits
pub mod Termination
use wastech_orchestrator.Prelude.{
  ℕ, zero, suc, Bool, false, not, String, none, some, List, [], ◌∷◌, contains, if◌then◌else◌,
}
use wastech_orchestrator.Prelude.Dict
use wastech_orchestrator.Status.{done, manual_action_required}
use wastech_orchestrator.Flow.Schema.{FlowNode, Edge, node_id, is_rework}
use wastech_orchestrator.Flow.Snapshot.{outgoing}
use wastech_orchestrator.Flow.RunState.{FlowRunState, mark_completed}
use wastech_orchestrator.Flow.Host.{
  NodeOutcome, Host, Setup, FlowRunResult, Fault, key_error, type_error, assertion_error, cancelled,
  Engine, Stuck,
}
use wastech_orchestrator.Flow.Routing.{
  select_edge, chosen, unmatched, entry_node_id, entry, no_entry,
}
use wastech_orchestrator.Flow.Execution.{outcome, failed, apply_overrides, execute_node}
use wastech_orchestrator.Flow.Charging.{guard_rework, reset_edges, reset_loops_at}

pub data Halt : Type 0 where
  finished : FlowRunResult → Halt
  fault : Fault → Halt

pub data Stepped (W : Type 0) : Type 0 where
  next : Engine W → Stepped W
  stop : Halt → Engine W → Stepped W

-- How `run` ends; `out_of_fuel` is of the model alone.
pub data Ended (W : Type 0) : Type 0 where
  ended : Halt → Engine W → Ended W
  out_of_fuel : Ended W

-- The fields that `__init__` sets.
abbrev pub new_engine : {W : Type 0} → FlowRunState → W → Engine W
new_engine s w = record { run_state = s; stall_fp = []; stall_streak = []; world = w }

-- `self._region is not None and edge.to not in self._region`
abbrev pub leaves_region : Setup → String → Bool
leaves_region setup target = elim setup.region [ none ↦ false | some r ↦ not (contains r target) ]

module _ {W : Type 0} (host : Host W) (setup : Setup) where
  open setup use {snapshot, limits, subtask_order}

  abbrev save : Engine W → Engine W
  save e = record e { world = host.save_checkpoint e.run_state e.world }

  unfoldable pub park : FlowNode → Stuck → Engine W → Stepped W
  park node stuck e =
      let (path, w) =
        host.write_failure_report (node_id node) stuck.loop stuck.limit_name e.run_state
          subtask_order e.world in
      stop
        (finished (record {
          status = manual_action_required;
          final_node = node_id node;
          stuck_loop = stuck.loop;
          limit_name = some stuck.limit_name;
          failure_report_path = some path;
        }))
        (save (record e { world = w }))

  abbrev pub finished_at : String → Halt
  finished_at node = finished (record {
    status = done;
    final_node = node;
    stuck_loop = none;
    limit_name = none;
    failure_report_path = none;
  })

  unfoldable pub move : FlowNode → Edge → Engine W → Stepped W
  move node edge e =
      let e' = save (record e { run_state = record e.run_state { current_node = some edge.to } }) in
      if leaves_region setup edge.to then stop (finished_at (node_id node)) e' else next e'

  unfoldable pub rework : FlowNode → Edge → Engine W → Stepped W
  unfolding guard_rework park move
  rework node edge e =
      let (stuck, e') = guard_rework host setup node edge e in
      elim stuck [ none ↦ move node edge e' | some s ↦ park node s e' ]

  unfoldable pub take_edge : FlowNode → Edge → Engine W → Stepped W
  unfolding rework move reset_edges
  take_edge node edge e =
      if is_rework edge
      then rework node edge e
      else move node edge (reset_loops_at snapshot (node_id node) e)

  -- From the completed node on.
  unfoldable pub leave : FlowNode → List Edge → NodeOutcome → Engine W → Stepped W
  unfolding take_edge
  leave node [] o e = stop (finished_at (node_id node)) (save e)
  leave node (edge ∷ edges) o e = elim (select_edge (node_id node) (edge ∷ edges) o.kind) [
    | unmatched f ↦ stop (fault f) e
    | chosen selected ↦ take_edge node selected e
  ]

  unfoldable pub work : FlowNode → Engine W → Stepped W
  unfolding execute_node leave
  work node e =
      let (executed, w) = execute_node host setup node e.run_state e.world in
      elim executed [
        | failed f ↦ stop (fault f) (record e { world = w })
        | outcome o ↦
            leave node (outgoing snapshot (node_id node)) o
              (record e { run_state = mark_completed e.run_state (node_id node); world = w })
      ]

  unfoldable pub visit : String → Engine W → Stepped W
  unfolding apply_overrides work
  visit current e =
      let (stopped, w) = host.is_cancelled e.world in
      let e' = record e { world = w } in
      if stopped
      then stop (fault (cancelled current)) (save e')
      else elim (Dict.get snapshot.nodes_by_id current) [
        | none ↦ stop (fault (key_error current)) e'
        | some declared ↦ elim (apply_overrides setup declared) [
          | none ↦ stop (fault (type_error current)) e'
          | some node ↦ work node e'
        ]
      ]

  -- One round of `while True`.
  unfoldable pub iterate : Engine W → Stepped W
  unfolding visit
  iterate e = elim e.run_state.current_node [
    | none ↦ stop (fault assertion_error) e
    | some current ↦ visit current e
  ]

  unfoldable pub loop_from : ℕ → Engine W → Ended W
  loop_from zero e = out_of_fuel
  loop_from (suc fuel) e = elim (iterate e) [ next e' ↦ loop_from fuel e' | stop h e' ↦ ended h e' ]

  -- FlowEngine(...) and its `run`.
  unfoldable pub run : ℕ → FlowRunState → W → Ended W
  unfolding loop_from
  run fuel s w = elim s.current_node [
    | some _ ↦ loop_from fuel (new_engine s w)
    | none ↦ elim (entry_node_id snapshot) [
      | no_entry f ↦ ended (fault f) (new_engine s w)
      | entry id ↦ loop_from fuel (new_engine (record s { current_node = some id }) w)
    ]
  ]
