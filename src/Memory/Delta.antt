-- ===== src/Memory/Delta.antt =====
-- memory/delta.py: the tolerant parser of the supervisor's proposal, a JSON value. The keys of an object are
-- distinct.
pub mod Usable
use wastech_orchestrator.Prelude.{
  Bool, true, false, not, ◌&&◌, String, Option, none, some, List, [], ◌∷◌, if◌then◌else◌, str_eq,
  or_default,
}
use wastech_orchestrator.Prelude.Json.{
  Value, text, array, object, Items, nil, cons, Fields, get_field,
}
use wastech_orchestrator.Decomposition.Parse.{is_blank, ◌>>=◌}
use wastech_orchestrator.Memory.Lifecycle.{Evidence}
use wastech_orchestrator.Memory.Records.{
  LongTermKind, semantic, procedural, reviewer, failure, Scope, Relationship,
}
use wastech_orchestrator.Memory.Ingest.{
  CandidateLesson, CandidateFailure, CandidateEntity, CandidateDelta,
}

abbrev pub nonempty_str : Option Value → Option String
nonempty_str (some (text s)) = if is_blank s then none else some s
nonempty_str _ = none

abbrev pub opt_str : Option Value → Option String
opt_str (some (text s)) = some s
opt_str _ = none

-- The texts of an array that are not empty.
unfoldable pub str_items : Items → List String
str_items nil = []
str_items (cons (text s) items) =
    let rest = str_items items in if str_eq s "" then rest else s ∷ rest
str_items (cons _ items) = str_items items

abbrev pub str_tuple : Option Value → List String
unfolding str_items
str_tuple (some (array items)) = str_items items
str_tuple _ = []

-- LongTermKind(kind_raw), in _LESSON_KINDS
unfoldable pub lesson_kind : String → Option LongTermKind
lesson_kind kind =
    if str_eq kind "semantic"
    then some semantic
    else if str_eq kind "procedural"
    then some procedural
    else if str_eq kind "reviewer"
    then some reviewer
    else none

-- _parse_list
module _ {T : Type 0} (parse_one : Value → Option T) where
  abbrev pub parsed_items : Items → List T
  parsed_items nil = []
  parsed_items (cons item items) =
      let rest = parsed_items items in elim (parse_one item) [ none ↦ rest | some t ↦ t ∷ rest ]

  abbrev pub parse_list : Option Value → List T
  parse_list (some (array items)) = parsed_items items
  parse_list _ = []

abbrev evidence_of : Fields → Option Evidence
unfolding get_field
evidence_of raw = do
  kind ← nonempty_str (get_field raw "type")
  ref ← nonempty_str (get_field raw "ref")
  some (record { type = kind; ref = ref })

unfoldable pub parse_evidence_item : Value → Option Evidence
unfolding evidence_of
parse_evidence_item (object raw) = evidence_of raw
parse_evidence_item _ = none

unfoldable pub parse_evidence : Option Value → List Evidence
unfolding parse_evidence_item
parse_evidence items = parse_list parse_evidence_item items

abbrev empty_scope : Scope
empty_scope = record { paths = []; symbols = []; nodes = [] }

unfoldable pub parse_scope : Option Value → Scope
unfolding get_field str_tuple
parse_scope (some (object raw)) = record {
  paths = str_tuple (get_field raw "paths");
  symbols = str_tuple (get_field raw "symbols");
  nodes = str_tuple (get_field raw "nodes");
}
parse_scope _ = empty_scope

abbrev relationship_of : Fields → Option Relationship
unfolding get_field
relationship_of raw = do
  kind ← nonempty_str (get_field raw "type")
  target ← nonempty_str (get_field raw "target")
  some (record { type = kind; target = target })

unfoldable pub parse_relationship : Value → Option Relationship
unfolding relationship_of
parse_relationship (object raw) = relationship_of raw
parse_relationship _ = none

abbrev lesson_of : Fields → Option CandidateLesson
unfolding get_field lesson_kind parse_scope parse_evidence
lesson_of raw = do
  kind_raw ← nonempty_str (get_field raw "kind")
  subject ← nonempty_str (get_field raw "subject")
  statement ← nonempty_str (get_field raw "statement")
  kind ← lesson_kind kind_raw
  some (record {
    kind = kind;
    subject = subject;
    statement = statement;
    rationale = opt_str (get_field raw "rationale");
    scope = parse_scope (get_field raw "scope");
    evidence = parse_evidence (get_field raw "evidence");
    trust_hint = opt_str (get_field raw "trust_hint");
  })

unfoldable pub parse_lesson : Value → Option CandidateLesson
unfolding lesson_of
parse_lesson (object raw) = lesson_of raw
parse_lesson _ = none

abbrev failure_of : Fields → Option CandidateFailure
unfolding get_field str_tuple parse_evidence
failure_of raw = do
  signature ← nonempty_str (get_field raw "signature")
  some (record {
    signature = signature;
    paths = str_tuple (get_field raw "paths");
    remedy = opt_str (get_field raw "remedy");
    evidence = parse_evidence (get_field raw "evidence");
  })

unfoldable pub parse_failure : Value → Option CandidateFailure
unfolding failure_of
parse_failure (object raw) = failure_of raw
parse_failure _ = none

abbrev entity_of : Fields → Option CandidateEntity
unfolding get_field str_tuple parse_relationship
entity_of raw = do
  entity_id ← nonempty_str (get_field raw "entity_id")
  entity_type ← nonempty_str (get_field raw "type")
  some (record {
    entity_id = entity_id;
    entity_type = entity_type;
    paths = str_tuple (get_field raw "paths");
    symbols = str_tuple (get_field raw "symbols");
    summary = or_default (opt_str (get_field raw "summary")) "";
    relationships = parse_list parse_relationship (get_field raw "relationships");
    risk_notes = str_tuple (get_field raw "risk_notes");
  })

unfoldable pub parse_entity : Value → Option CandidateEntity
unfolding entity_of
parse_entity (object raw) = entity_of raw
parse_entity _ = none

unfoldable pub is_empty : CandidateDelta → Bool
is_empty delta = elim delta.lessons [
  | _ ∷ _ ↦ false
  | [] ↦ elim delta.failures [
    | _ ∷ _ ↦ false
    | [] ↦ elim delta.entities [ _ ∷ _ ↦ false | [] ↦ true ]
  ]
]

-- The proposal before the test that it has something.
unfoldable pub delta_of : Fields → CandidateDelta
unfolding get_field parse_lesson parse_failure parse_entity
delta_of raw = record {
  lessons = parse_list parse_lesson (get_field raw "lessons");
  failures = parse_list parse_failure (get_field raw "failures");
  entities = parse_list parse_entity (get_field raw "entities");
}

unfoldable pub parse_delta : Value → Option CandidateDelta
unfolding delta_of is_empty
parse_delta (object raw) = if is_empty (delta_of raw) then none else some (delta_of raw)
parse_delta _ = none
