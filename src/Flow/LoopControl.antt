-- ===== src/Flow/LoopControl.antt =====
-- core/loop_control.py: fix budgets. `edge_key` and the refusals are the ones that the engine
-- charges by.
pub mod Refusal
use wastech_orchestrator.Prelude.{
  ℕ, ◌^◌, min, Bool, not, String, Option, none, some, List, [], ◌∷◌, concat, leb, if◌then◌else◌,
}
use wastech_orchestrator.Prelude.Dict.{Dict}
use wastech_orchestrator.Prelude.Dict
use wastech_orchestrator.Flow.Schema.{Edge, is_rework}
use wastech_orchestrator.Flow.Snapshot.{FlowSnapshot, outgoing}
use wastech_orchestrator.Flow.RunState.{
  FlowRunState, global_fix_key, counter, fix_iterations, total, bump,
}

abbrev pub large : ℕ
large = 2 ^ 60

pub record LoopCounters : Type 0 where
  pub test_fix_cycles : ℕ
  pub review_fix_cycles : ℕ
  pub test_fix_total : ℕ
  pub review_fix_total : ℕ
  pub fix_iterations : ℕ

unfoldable pub from_run_state : FlowRunState → LoopCounters
from_run_state s = record {
  test_fix_cycles = counter s "test_fix";
  review_fix_cycles = counter s "review_fix";
  test_fix_total = total s "test_fix";
  review_fix_total = total s "review_fix";
  fix_iterations = fix_iterations s;
}

unfoldable pub record_rework : FlowRunState → FlowRunState
unfolding bump
record_rework s = bump s global_fix_key

abbrev max_option : Option ℕ → ℕ → ℕ
max_option none n = n
max_option (some m) n = if leb m n then n else m

-- The budget that one edge states: the named loop's, or the inline one.
abbrev pub edge_budget : Dict ℕ → Edge → Option ℕ
edge_budget budgets edge = elim edge.loop [ some loop ↦ Dict.get budgets loop | none ↦ edge.budget ]

unfoldable pub largest_budget : Dict ℕ → List Edge → Option ℕ
largest_budget budgets [] = none
largest_budget budgets (edge ∷ rest) =
    let best = largest_budget budgets rest in
    if not (is_rework edge)
    then best
    else elim (edge_budget budgets edge) [ none ↦ best | some b ↦ some (max_option best b) ]

unfoldable pub declared_loop_budget : FlowSnapshot → String → Option ℕ
unfolding largest_budget
declared_loop_budget snapshot node = largest_budget snapshot.doc.budgets (outgoing snapshot node)

abbrev pub loop_cap : Dict ℕ → ℕ → String → ℕ
loop_cap budgets max_fix_cycles loop = min (Dict.get_or budgets loop large) max_fix_cycles

abbrev pub global_cap : Dict ℕ → ℕ → ℕ
global_cap budgets max_total_fix_iterations =
    min (Dict.get_or budgets global_fix_key large) max_total_fix_iterations

-- repr of an outcome in an f-string
abbrev shown : Option String → String
shown none = "None"
shown (some outcome) = outcome

abbrev pub edge_key : Edge → String
edge_key edge =
    concat edge.from_node (concat "->" (concat edge.to (concat ":" (shown edge.outcome))))

pub record ReworkRefusal : Type 0 where
  pub loop : Option String
  pub limit_name : String

-- The two limits of the configuration: `agents.max_fix_cycles` and
-- `agents.max_total_fix_iterations`.
pub record Limits : Type 0 where
  pub max_fix_cycles : ℕ
  pub max_total_fix_iterations : ℕ

-- The loop or inline limit, which is reported before the global one.
unfoldable pub edge_refusal : FlowSnapshot → FlowRunState → Edge → Limits → Option ReworkRefusal
edge_refusal snapshot s edge limits = elim edge.loop [
  | some loop ↦
      if leb (loop_cap snapshot.doc.budgets limits.max_fix_cycles loop) (counter s loop)
      then some (record { loop = some loop; limit_name = "max_fix_cycles" })
      else none
  | none ↦ elim edge.budget [
    | none ↦ none
    | some budget ↦
        if leb budget (counter s (edge_key edge))
        then some (record {
          loop = none;
          limit_name = concat "budget:" (concat edge.from_node (concat "->" edge.to));
        })
        else none
  ]
]

unfoldable pub rework_refusal : FlowSnapshot → FlowRunState → Edge → Limits → Option ReworkRefusal
unfolding edge_refusal
rework_refusal snapshot s edge limits = elim (edge_refusal snapshot s edge limits) [
  | some refused ↦ some refused
  | none ↦
      if leb (global_cap snapshot.doc.budgets limits.max_total_fix_iterations) (fix_iterations s)
      then some (record { loop = edge.loop; limit_name = "max_total_fix_iterations" })
      else none
]

unfoldable pub global_backstop_exhausted : Dict ℕ → ℕ → Dict ℕ → Bool
global_backstop_exhausted budgets max_total_fix_iterations counters =
    leb (global_cap budgets max_total_fix_iterations) (Dict.get_or counters global_fix_key 0)
