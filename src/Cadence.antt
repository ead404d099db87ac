-- ===== src/Cadence.antt =====
-- core/observe_cadence.py: which steps the supervisor observes. A set of triggers is a list.
pub mod Narrower
use wastech_orchestrator.Prelude.{
  ℕ, leb, Bool, true, false, ◌||◌, String, str_eq, contains, Option, none, some, or_default, List,
  [], ◌∷◌, ◌++◌, any, if◌then◌else◌,
}
use wastech_orchestrator.Prelude.Dict
use wastech_orchestrator.Prelude.Dict.{Dict}
use wastech_orchestrator.Flow.Schema.{
  ObserveMode, observe_all, observe_selected, observe_events, observe_none,
}

-- The mode's `value`
abbrev pub mode_value : ObserveMode → String
mode_value observe_all = "all"
mode_value observe_selected = "selected"
mode_value observe_events = "events"
mode_value observe_none = "none"

abbrev pub mode_rank : Dict ℕ
mode_rank =
    (mode_value observe_none, 0)
    ∷ (mode_value observe_events, 1)
    ∷ (mode_value observe_selected, 2)
    ∷ (mode_value observe_all, 3)
    ∷ []

abbrev ranked : Option ℕ → Option ℕ → Bool
ranked (some c) (some r) = leb c r
ranked _ _ = false

unfoldable pub is_same_or_narrower : String → String → Bool
is_same_or_narrower candidate reference =
    ranked (Dict.get mode_rank candidate) (Dict.get mode_rank reference)

unfoldable pub resolve_mode : ObserveMode → Option ObserveMode → ObserveMode
resolve_mode global_mode flow_mode = or_default flow_mode global_mode

abbrev is_failed : Option String → Bool
is_failed none = false
is_failed (some status) = str_eq status "failed"

abbrev trigger_if : Bool → String → List String
trigger_if b trigger = if b then trigger ∷ [] else []

unfoldable pub triggers_for : String → Bool → Option String → Bool → List String
triggers_for outcome_kind rework_exhausted status fell_back =
    trigger_if (str_eq outcome_kind "rework" || rework_exhausted) "rework"
    ++ (trigger_if (is_failed status) "failure" ++ trigger_if fell_back "fallback")

unfoldable pub should_observe :
    ObserveMode → String → List String → List String → List String → Bool
should_observe observe_none node_id include_nodes enabled_triggers triggers = false
should_observe observe_all node_id include_nodes enabled_triggers triggers = true
should_observe observe_selected node_id include_nodes enabled_triggers triggers =
    contains include_nodes node_id
should_observe observe_events node_id include_nodes enabled_triggers triggers =
    any (contains enabled_triggers) triggers
