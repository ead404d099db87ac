-- ===== src/Decomposition/Parse.antt =====
-- core/decomposition.py, `_parse_subtask` and `decide_decomposition`: the planning agent's output, a
-- JSON value. The keys of an object are distinct.
use wastech_orchestrator.Prelude.{
  ℕ, leb, ◌==◌, Bool, false, ◌&&◌, ◌||◌, String, Option, none, some, List, [], ◌∷◌, all,
  if◌then◌else◌,
}
use wastech_orchestrator.Prelude.Int.{ℤ}
use wastech_orchestrator.Prelude.Chars.{codes}
use wastech_orchestrator.Prelude.Json.{
  Value, bool, int, text, array, object, Items, nil, cons, Fields, get_field,
}
use wastech_orchestrator.Decomposition.{
  SubtaskSpec, DecompositionDecision, gate_off, not_recommended, malformed_subtask, single_unit,
  decide_from_specs,
}

-- `str.isspace` of one character.
abbrev pub is_space : ℕ → Bool
is_space c =
    (leb 9 c && leb c 13)
    || (leb 28 c && leb c 32)
    || c == 133
    || c == 160
    || c == 5760
    || (leb 8192 c && leb c 8202)
    || c == 8232
    || c == 8233
    || c == 8239
    || c == 8287
    || c == 12288

-- `not s.strip()`
abbrev pub is_blank : String → Bool
is_blank s = all is_space (codes s)

abbrev as_int : Option Value → Option ℤ
as_int (some (int n)) = some n
as_int _ = none

-- A text that is not blank.
abbrev as_text : Option Value → Option String
as_text (some (text s)) = if is_blank s then none else some s
as_text _ = none

abbrev pub as_array : Option Value → Option Items
as_array (some (array items)) = some items
as_array _ = none

unfoldable pub texts_of : Items → Option (List String)
texts_of nil = some []
texts_of (cons v items) = elim (as_text (some v)) [
  | none ↦ none
  | some s ↦ elim (texts_of items) [ none ↦ none | some ss ↦ some (s ∷ ss) ]
]

unfoldable pub ints_of : Items → Option (List ℤ)
ints_of nil = some []
ints_of (cons v items) = elim (as_int (some v)) [
  | none ↦ none
  | some n ↦ elim (ints_of items) [ none ↦ none | some ns ↦ some (n ∷ ns) ]
]

-- `acceptance`: an array of texts that is not empty.
unfoldable pub criteria_of : Option Items → Option (List String)
unfolding texts_of
criteria_of none = none
criteria_of (some nil) = none
criteria_of (some (cons v items)) = texts_of (cons v items)

unfoldable pub dependencies_of : Option Items → Option (List ℤ)
unfolding ints_of
dependencies_of none = none
dependencies_of (some items) = ints_of items

infixl 5 ◌>>=◌
abbrev pub ◌>>=◌ : {A B : Type 0} → Option A → (A → Option B) → Option B
none >>= f = none
some a >>= f = f a

abbrev spec_of : Fields → Option SubtaskSpec
unfolding get_field criteria_of dependencies_of
spec_of raw = do
  order ← as_int (get_field raw "order")
  title ← as_text (get_field raw "title")
  slug ← as_text (get_field raw "slug")
  criteria ← criteria_of (as_array (get_field raw "acceptance_criteria"))
  depends_on ← dependencies_of (as_array (get_field raw "depends_on"))
  some (record {
    order = order;
    title = title;
    slug = slug;
    acceptance_criteria = criteria;
    depends_on = depends_on;
    spec_body = none;
  })

unfoldable pub parse_subtask : Value → Option SubtaskSpec
unfolding get_field criteria_of dependencies_of spec_of
parse_subtask (object raw) = spec_of raw
parse_subtask _ = none

-- The loop over the raw subtasks.
unfoldable pub parse_subtasks : Items → Option (List SubtaskSpec)
unfolding parse_subtask
parse_subtasks nil = some []
parse_subtasks (cons raw items) = do
  spec ← parse_subtask raw
  specs ← parse_subtasks items
  some (spec ∷ specs)

abbrev pub is_true : Option Value → Bool
is_true (some (bool b)) = b
is_true _ = false

unfoldable pub decide_items : Option Items → ℕ → DecompositionDecision
unfolding single_unit parse_subtasks decide_from_specs
decide_items none max_subtasks = single_unit not_recommended
decide_items (some items) max_subtasks = elim (parse_subtasks items) [
  | none ↦ single_unit malformed_subtask
  | some specs ↦ decide_from_specs specs max_subtasks
]

unfoldable pub decide_object : Option Value → ℕ → DecompositionDecision
unfolding single_unit get_field decide_items
decide_object (some (object output)) max_subtasks =
    if is_true (get_field output "decompose")
    then decide_items (as_array (get_field output "subtasks")) max_subtasks
    else single_unit not_recommended
decide_object _ max_subtasks = single_unit not_recommended

unfoldable pub decide_decomposition : Option Value → Bool → ℕ → DecompositionDecision
unfolding single_unit decide_object
decide_decomposition output gate_on max_subtasks =
    if gate_on then decide_object output max_subtasks else single_unit gate_off
