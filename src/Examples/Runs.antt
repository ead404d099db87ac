-- ===== src/Examples/Runs.antt =====
-- The flow engine's theorems at the small flow.
use wastech_orchestrator.Prelude.{
  ℕ, ◌+◌, ◌<◌, ◌≡◌, refl, ◌⊎◌, inl, true, false, ◌↔◌, String, none, some, List, ◌++◌, In, arith,
}
use wastech_orchestrator.Prelude.Dict
use wastech_orchestrator.Flow.Schema.{Edge, is_rework}
use wastech_orchestrator.Flow.Snapshot.{build_snapshot, outgoing}
use wastech_orchestrator.Flow.RunState.{new_run_state, fix_iterations, counter}
use wastech_orchestrator.Flow.LoopControl.{rework_refusal}
use wastech_orchestrator.Flow.LoopControl.Refusal.{HasRoom, refusal_none_iff}
use wastech_orchestrator.Flow.Host.{Engine}
use wastech_orchestrator.Flow.Routing.{select_edge}
use wastech_orchestrator.Flow.Charging.{charge_counters}
use wastech_orchestrator.Flow.Engine.{iterate, next, run, ended, Halt}
use wastech_orchestrator.Flow.Engine.Step.{Transition, iterate-Transition}
use wastech_orchestrator.Flow.Engine.Budgets.{
  IsWithin, cap, iterate-fix_iterations, iterate-counter_zero,
}
use wastech_orchestrator.Flow.Engine.Visits.{Visits, here, then, Walk, Visits-IsWithin, Visits-Walk}
use wastech_orchestrator.Flow.Engine.Termination.{run_terminates}
use wastech_orchestrator.Examples.Data.{
  back, snapshot, snapshot-IsIndexed, snapshot-HasPlainLoops, rank, snapshot-IsRanked, host, setup,
  at_verify, checking, sent_back, at_verify-IsWithin,
}

first_round : iterate host setup checking ≡ next sent_back
unfolding iterate Dict.get build_snapshot Dict.put select_edge rework_refusal
first_round = refl

one_round : Visits host setup checking sent_back
one_round = then here first_round

run_terminates_example :
    (h : Halt) × (e' : Engine ℕ) × (run host setup 18 (new_run_state "f") 0 ≡ ended h e')
unfolding Dict.get
run_terminates_example =
    run_terminates host setup rank 2 18 (new_run_state "f") 0 snapshot-IsIndexed
      snapshot-HasPlainLoops snapshot-IsRanked (omega arith)

Visits-IsWithin_example : IsWithin setup sent_back.run_state
Visits-IsWithin_example =
    Visits-IsWithin host setup {e = checking} {e' = sent_back} snapshot-IsIndexed
      snapshot-HasPlainLoops at_verify-IsWithin one_round

Visits-Walk_example :
    (path : List String) × (b : String) × (sent_back.run_state.current_node ≡ some b)
    × (sent_back.run_state.completed_nodes ≡ checking.run_state.completed_nodes ++ path)
    × Walk snapshot "verify" path b
Visits-Walk_example =
    Visits-Walk host setup {e = checking} {e' = sent_back} {a = "verify"} snapshot-IsIndexed refl
      one_round

iterate-Transition_example : Transition setup checking sent_back
iterate-Transition_example =
    iterate-Transition host setup checking sent_back snapshot-IsIndexed first_round

iterate-fix_iterations_example :
    (node : String) × (edge : Edge) × (checking.run_state.current_node ≡ some node)
    × In edge (outgoing snapshot node)
    × (sent_back.run_state.current_node ≡ some edge.to)
    × (((is_rework edge ≡ true)
          × (fix_iterations sent_back.run_state ≡ fix_iterations checking.run_state + 1)
          × (fix_iterations checking.run_state < cap setup))
        ⊎ ((is_rework edge ≡ false)
            × (fix_iterations sent_back.run_state ≡ fix_iterations checking.run_state)))
iterate-fix_iterations_example =
    iterate-fix_iterations host setup checking sent_back snapshot-IsIndexed snapshot-HasPlainLoops
      first_round

refusal_none_iff_example :
    (rework_refusal snapshot at_verify back setup.limits ≡ none)
    ↔ HasRoom snapshot at_verify back setup.limits
refusal_none_iff_example = refusal_none_iff snapshot at_verify back setup.limits

iterate-counter_zero_example :
    (edge : Edge) × In edge (outgoing snapshot "verify")
    × (sent_back.run_state.current_node ≡ some edge.to)
    × (((is_rework edge ≡ true)
          × (sent_back.run_state.loop_counters
              ≡ (charge_counters edge checking.run_state).loop_counters))
        ⊎ ((is_rework edge ≡ false) × (counter sent_back.run_state "test_fix" ≡ 0)))
unfolding Dict.get build_snapshot Dict.put
iterate-counter_zero_example =
    iterate-counter_zero host setup checking sent_back "verify" back "test_fix" snapshot-IsIndexed
      refl (inl refl) refl refl first_round
