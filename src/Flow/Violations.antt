-- ===== src/Flow/Violations.antt =====
-- core/flow/validator.py: what a check reports. A violation is a constructor in place of a message.
use wastech_orchestrator.Prelude.{
  Bool, true, false, String, str_eq, Option, none, some, List, [], ◌∷◌, ◌++◌,
}
use wastech_orchestrator.Flow.Schema.{Edge}

pub data Violation : Type 0 where
  unknown_source unknown_target : String → Violation
  bad_outcome : String → Option String → Violation
  unbounded : Edge → Violation
  undeclared_loop : String → Violation
  not_one_entry : List String → Violation
  unreachable : List String → Violation
  no_terminal : Violation
  trapped : List String → Violation
  lineage_not_found lineage_not_editing lineage_chain lineage_providers : String → Violation
  no_proposer no_sub_flow_node no_shared_budget : String → Violation
  no_region_entry no_region_exit : Violation
  disables_unknown disables_unroutable : String → Violation
  -- of the model alone
  out_of_fuel : Violation

abbrev pub found_if : Bool → Violation → List Violation
found_if true v = v ∷ []
found_if false v = []

-- `[f(x) for x in xs]`, joined.
abbrev pub collect : {A : Type 0} → (A → List Violation) → List A → List Violation
collect f [] = []
collect f (x ∷ xs) = f x ++ collect f xs

abbrev pub same_outcome : Option String → Option String → Bool
same_outcome none none = true
same_outcome (some a) (some b) = str_eq a b
same_outcome _ _ = false
