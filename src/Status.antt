-- ===== src/Status.antt =====
-- src/wastech_orchestrator/core/state_machine.py: the task statuses and their transitions.
-- `frozenset` is a list, and `dict[Status, frozenset[Status]]` a list of pairs.
pub mod Lifecycle
use wastech_orchestrator.Prelude.{
  Bool, true, false, ◌||◌, Option, none, some, List, [], ◌∷◌, ◌++◌, map, any, or_default,
  if◌then◌else◌,
}
use mathlib.Core.Logic.{ite}

pub data Status : Type 0 where
  new validated preparing running done failed manual_action_required pending : Status

pub Status-discrete : Discrete Status
Status-discrete = hlevel

unfoldable pub same : Status → Status → Bool
unfolding Status-discrete
same s t = ite (Status-discrete s t) true false

-- `s in xs`
unfoldable pub member : List Status → Status → Bool
unfolding same
member xs s = any (same s) xs

abbrev pub terminal : List Status
terminal = done ∷ failed ∷ manual_action_required ∷ []

abbrev pub active : List Status
active = validated ∷ preparing ∷ running ∷ []

abbrev pub Table : Type 0
Table = List (Status × List Status)

-- `_BASE_TRANSITIONS`
abbrev pub base_transitions : Table
base_transitions =
    (new, validated ∷ [])
    ∷ (validated, preparing ∷ [])
    ∷ (preparing, running ∷ [])
    ∷ (running, done ∷ [])
    ∷ (pending, validated ∷ preparing ∷ [])
    ∷ []

abbrev pub bailouts : List Status
bailouts = failed ∷ manual_action_required ∷ []

-- table[k] = v
set_row : Status → List Status → Table → Table
unfolding same
set_row k v [] = (k, v) ∷ []
set_row k v ((j, w) ∷ t) =
    let rest = set_row k v t in if same j k then (k, v) ∷ t else (j, w) ∷ rest

-- the first loop of `_build_transitions`
add_bailouts : Table → Table → Table
unfolding member set_row
add_bailouts [] table = table
add_bailouts ((status, targets) ∷ rest) table =
    add_bailouts rest
      (set_row status (if member terminal status then targets else targets ++ bailouts) table)

-- the second loop
close_terminals : List Status → Table → Table
unfolding set_row
close_terminals [] table = table
close_terminals (t ∷ rest) table = close_terminals rest (set_row t [] table)

pub build_transitions : Table
unfolding add_bailouts close_terminals
build_transitions = close_terminals terminal (add_bailouts base_transitions [])

-- `ALLOWED_TRANSITIONS.get(src)`
row : Table → Status → Option (List Status)
unfolding same
row [] s = none
row ((j, w) ∷ t) s = if same j s then some w else row t s

unfoldable pub can_transition : Status → Status → Bool
unfolding build_transitions row member
can_transition src dst = member (or_default (row build_transitions src) []) dst

pub data Checked : Type 0 where
  permitted : Checked
  invalid_transition : Status → Status → Checked

unfoldable pub assert_transition : Status → Status → Checked
unfolding can_transition
assert_transition src dst = if can_transition src dst then permitted else invalid_transition src dst

unfoldable pub is_terminal : Status → Bool
unfolding member
is_terminal s = member terminal s

unfoldable pub is_active : Status → Bool
unfolding member
is_active s = member active s
