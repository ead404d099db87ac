-- ===== src/Flow/Charging.antt =====
-- core/flow/engine.py: the stall guards, the charge of a rework edge, the reset on a forward edge.
pub mod Counters
use wastech_orchestrator.Prelude.{
  ℕ, ◌+◌, Bool, false, not, String, Option, none, some, List, [], ◌∷◌, str_eq, leb, if◌then◌else◌,
}
use wastech_orchestrator.Prelude.Dict
use wastech_orchestrator.Flow.Schema.{FlowNode, evaluator, Edge, node_id, is_rework}
use wastech_orchestrator.Flow.Snapshot.{FlowSnapshot, outgoing}
use wastech_orchestrator.Flow.RunState.{FlowRunState, bump, reset, total_key}
use wastech_orchestrator.Flow.LoopControl.{ReworkRefusal, edge_key, record_rework, rework_refusal}
use wastech_orchestrator.Flow.Host.{Host, Setup, Engine, Stuck}

abbrev pub stall_no_change_limit : ℕ
stall_no_change_limit = 2

abbrev pub repeated_findings_limit : ℕ
repeated_findings_limit = 3

-- A non-blocking evaluator.
abbrev pub advisory : FlowNode → Bool
advisory (evaluator n) = not n.blocking
advisory _ = false

abbrev pub as_stuck : ReworkRefusal → Stuck
as_stuck r = record { loop = r.loop; limit_name = r.limit_name }

-- What the loop counters hold after a rework edge was charged.
unfoldable pub charge_counters : Edge → FlowRunState → FlowRunState
unfolding record_rework bump
charge_counters edge s =
    let s' = record_rework s in
    elim edge.loop [
      | some loop ↦ bump (bump s' loop) (total_key loop)
      | none ↦ elim edge.budget [ none ↦ s' | some _ ↦ bump s' (edge_key edge) ]
    ]

abbrev seen_before : Option String → String → Bool
seen_before none fingerprint = false
seen_before (some old) fingerprint = str_eq old fingerprint

module _ (setup : Setup) where
  unfoldable pub charge_rework : Edge → FlowRunState → Option Stuck × FlowRunState
  unfolding charge_counters
  charge_rework edge s = elim (rework_refusal setup.snapshot s edge setup.limits) [
    | some r ↦ (some (as_stuck r), s)
    | none ↦ (none, charge_counters edge s)
  ]

module _ {W : Type 0} where
  -- One edge of `_reset_loops_at`.
  unfoldable pub reset_edge : Edge → Engine W → Engine W
  unfolding reset
  reset_edge edge e = if not (is_rework edge) then e else elim edge.loop [
    | some loop ↦ record e {
      run_state = reset e.run_state loop;
      stall_streak = Dict.pop e.stall_streak loop;
      stall_fp = Dict.pop e.stall_fp loop;
    }
    | none ↦ elim edge.budget [
      | none ↦ e
      | some _ ↦ record e { run_state = reset e.run_state (edge_key edge) }
    ]
  ]

  unfoldable pub reset_edges : List Edge → Engine W → Engine W
  unfolding reset_edge
  reset_edges [] e = e
  reset_edges (edge ∷ rest) e = reset_edges rest (reset_edge edge e)

  abbrev pub reset_loops_at : FlowSnapshot → String → Engine W → Engine W
  reset_loops_at snapshot node e = reset_edges (outgoing snapshot node) e

module _ {W : Type 0} (host : Host W) where
  -- The working tree did not change over `stall_no_change_limit` charges of the loop in a row.
  unfoldable pub check_no_file_change : String → Engine W → Option Stuck × Engine W
  check_no_file_change loop e = elim host.diff_fingerprint [
    | none ↦ (none, e)
    | some read ↦
        let fingerprint = read e.world in
        let unchanged : Bool = seen_before (Dict.get e.stall_fp loop) fingerprint in
        let streak = if unchanged then Dict.get_or e.stall_streak loop 0 + 1 else 0 in
        let e' = record e {
          stall_streak = Dict.put e.stall_streak loop streak;
          stall_fp = if unchanged then e.stall_fp else Dict.put e.stall_fp loop fingerprint;
        } in
        (
          if leb stall_no_change_limit streak
              then some (record { loop = some loop; limit_name = "no_file_change" })
              else none,
          e',
        )
  ]

  unfoldable pub check_repeated_findings : String → String → W → Option Stuck
  check_repeated_findings node loop w = elim host.repeated_findings [
    | none ↦ none
    | some count ↦
        if leb repeated_findings_limit (count node w)
        then some (record { loop = some loop; limit_name = "repeated_findings" })
        else none
  ]

  unfoldable pub check_stall : String → String → Engine W → Option Stuck × Engine W
  unfolding check_no_file_change check_repeated_findings
  check_stall node loop e =
      let (no_change, e') = check_no_file_change loop e in
      (elim no_change [ some s ↦ some s | none ↦ check_repeated_findings node loop e'.world ], e')

module _ {W : Type 0} (host : Host W) (setup : Setup) where
  -- The stall guards, and then the charge.
  unfoldable pub guard_rework : FlowNode → Edge → Engine W → Option Stuck × Engine W
  unfolding check_stall charge_rework
  guard_rework node edge e =
      let (stalled, e') : Option Stuck × Engine W = elim edge.loop [
        | none ↦ (none, e)
        | some loop ↦ if advisory node then (none, e) else check_stall host (node_id node) loop e
      ] in
      elim stalled [
        | some s ↦ (some s, e')
        | none ↦
            let (refused, s) = charge_rework setup edge e'.run_state in
            (refused, record e' { run_state = s })
      ]
