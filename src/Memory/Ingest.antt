-- ===== src/Memory/Ingest.antt =====
-- memory/delta.py's candidates, and what memory/service.py does with them before it writes.
use wastech_orchestrator.Prelude.{
  ℕ, ◌+◌, Bool, true, false, not, ◌&&◌, ◌||◌, String, Option, some, List, [], ◌∷◌, ◌++◌,
  if◌then◌else◌, concat, contains, length,
}
use wastech_orchestrator.Prelude.Int.{pos}
use wastech_orchestrator.Prelude.Json.{
  Value, text, array, object, int, Items, nil, cons, Fields, get_field, put_field, text_items,
}
use wastech_orchestrator.Memory.Lifecycle.{Evidence, TrustLevel}
use wastech_orchestrator.Memory.Audit.{AuditContext, is_text, padded}
use wastech_orchestrator.Memory.Records.{
  LongTermKind, trust_value, Scope, Relationship, evidence_row,
}
use wastech_orchestrator.Memory.Store.{MemoryStore}

-- memory/delta.py
pub record CandidateLesson : Type 0 where
  pub kind : LongTermKind
  pub subject : String
  pub statement : String
  pub rationale : Option String
  pub scope : Scope
  pub evidence : List Evidence
  pub trust_hint : Option String

pub record CandidateFailure : Type 0 where
  pub signature : String
  pub paths : List String
  pub remedy : Option String
  pub evidence : List Evidence

pub record CandidateEntity : Type 0 where
  pub entity_id : String
  pub entity_type : String
  pub paths : List String
  pub symbols : List String
  pub summary : String
  pub relationships : List Relationship
  pub risk_notes : List String

pub record CandidateDelta : Type 0 where
  pub lessons : List CandidateLesson
  pub failures : List CandidateFailure
  pub entities : List CandidateEntity

pub data WriteSource : Type 0 where
  from_success from_failure : WriteSource

-- source is WriteSource.FAILURE
abbrev pub is_failure : WriteSource → Bool
is_failure from_success = false
is_failure from_failure = true

pub record ApplyResult : Type 0 where
  pub episode_id : String
  pub promoted : ℕ
  pub quarantined : ℕ
  pub merged : ℕ
  pub entities : ℕ

-- The store and the result so far.
abbrev pub Ingested : Type 0
Ingested = MemoryStore × ApplyResult

-- evidence and paths, as conditions
abbrev pub is_nonempty {ℓ} : {A : Type ℓ} → List A → Bool
is_nonempty [] = false
is_nonempty (_ ∷ _) = true

abbrev pub bump : ApplyResult → ℕ → ℕ → ℕ → ℕ → ApplyResult
bump r promoted quarantined merged entities = record {
  episode_id = r.episode_id;
  promoted = r.promoted + promoted;
  quarantined = r.quarantined + quarantined;
  merged = r.merged + merged;
  entities = r.entities + entities;
}

-- _reason
abbrev pub reason : AuditContext → String → AuditContext
reason audit rationale = record {
  timestamp = audit.timestamp;
  actor = audit.actor;
  rationale = rationale;
  source_artifacts = audit.source_artifacts;
  task_id = audit.task_id;
}

abbrev pub quarantine_reason : WriteSource → Bool → TrustLevel → String
quarantine_reason from_failure has_support trust =
    "quarantined: failure-seam source (never promoted to long-term)"
quarantine_reason from_success has_support trust =
    if not has_support
    then "quarantined: no supporting evidence"
    else concat "quarantined: non-durable trust '" (concat (trust_value trust) "'")

abbrev pub shown : ℕ → String
unfolding padded
shown n = padded (1 + n) 1 n

-- The loop of _distinct, which has kept `out`.
unfoldable pub distinct_from : List String → List String → List String
distinct_from out [] = out
distinct_from out (item ∷ items) =
    if contains out item then distinct_from out items else distinct_from (out ++ (item ∷ [])) items

abbrev pub distinct : List String → List String
unfolding distinct_from
distinct items = distinct_from [] items

unfoldable pub texts_in : Items → List String
texts_in nil = []
texts_in (cons (text s) items) = s ∷ texts_in items
texts_in (cons _ items) = texts_in items

-- _as_str_list
abbrev pub as_str_list : Option Value → List String
unfolding texts_in
as_str_list (some (array items)) = texts_in items
as_str_list _ = []

unfoldable pub objects_in : Items → Items
objects_in nil = nil
objects_in (cons (object fields) items) = cons (object fields) (objects_in items)
objects_in (cons _ items) = objects_in items

-- (item.type, item.ref) in have
unfoldable pub has_evidence : Items → Evidence → Bool
unfolding get_field
has_evidence nil item = false
has_evidence (cons (object fields) items) item =
    (is_text (get_field fields "type") item.type && is_text (get_field fields "ref") item.ref)
    || has_evidence items item
has_evidence (cons _ items) item = has_evidence items item

abbrev pub append_item : Items → Value → Items
append_item nil v = cons v nil
append_item (cons w items) v = cons w (append_item items v)

unfoldable pub union_evidence : Items → List Evidence → Items
unfolding has_evidence
union_evidence union [] = union
union_evidence union (item ∷ items) =
    if has_evidence union item
    then union_evidence union items
    else union_evidence (append_item union (evidence_row item)) items

-- existing.get("evidence") or []
abbrev pub items_at : Option Value → Items
items_at (some (array items)) = items
items_at _ = nil

unfoldable pub merge_long_term : Fields → String → List Evidence → String → String → Fields
unfolding get_field put_field text_items objects_in union_evidence texts_in distinct
merge_long_term existing statement evidence now task_id =
    let union = union_evidence (objects_in (items_at (get_field existing "evidence"))) evidence in
    let seen = distinct (as_str_list (get_field existing "seen_task_ids") ++ (task_id ∷ [])) in
    let worded = put_field existing "statement" (text statement) in
    let grounded = put_field worded "evidence" (array union) in
    let recurred = put_field grounded "seen_task_ids" (array (text_items seen)) in
    let counted = put_field recurred "usage_count" (int (pos (length seen))) in
    let verified = put_field counted "last_verified_at" (text now) in
    put_field verified "status" (text "active")
