-- ===== src/Memory/Records.antt =====
-- memory/records.py: the records of the three tiers, and the rows that are written for them.
use wastech_orchestrator.Prelude.{ℕ, String, Option, List, [], ◌∷◌}
use wastech_orchestrator.Prelude.Int.{pos}
use wastech_orchestrator.Prelude.Json.{
  Value, int, text, array, object, Items, nil, cons, Fields, end, field, text_items, text_or_null,
}
use wastech_orchestrator.Memory.Lifecycle.{
  Evidence, TrustLevel, repo_observed, human_curated, review_verified, artifact_backed,
  agent_inferred, external_untrusted,
}

pub data LongTermKind : Type 0 where
  semantic procedural reviewer failure : LongTermKind

abbrev pub kind_value : LongTermKind → String
kind_value semantic = "semantic"
kind_value procedural = "procedural"
kind_value reviewer = "reviewer"
kind_value failure = "failure"

abbrev pub trust_value : TrustLevel → String
trust_value repo_observed = "repo-observed"
trust_value human_curated = "human-curated"
trust_value review_verified = "review-verified"
trust_value artifact_backed = "artifact-backed"
trust_value agent_inferred = "agent-inferred"
trust_value external_untrusted = "external-untrusted"

pub record Relationship : Type 0 where
  pub type : String
  pub target : String

pub record Scope : Type 0 where
  pub paths : List String
  pub symbols : List String
  pub nodes : List String

pub record EpisodeRecord : Type 0 where
  pub id : String
  pub task_id : String
  pub created_at : String
  pub trust_level : TrustLevel
  pub task_type : Option String
  pub base_commit : Option String
  pub head_commit : Option String
  pub touched_paths : List String
  pub touched_symbols : List String
  pub stage_outcomes : List (String × String)
  pub artifact_paths : List String
  pub expires_at : Option String

pub record LongTermRecord : Type 0 where
  pub memory_id : String
  pub kind : LongTermKind
  pub subject : String
  pub statement : String
  pub trust_level : TrustLevel
  pub rationale : Option String
  pub scope : Scope
  pub evidence : List Evidence
  pub remedy : Option String
  pub status : String
  pub first_seen_commit : Option String
  pub last_verified_commit : Option String
  pub last_verified_at : Option String
  pub usage_count : ℕ
  pub supersedes : List String
  pub first_seen_at : Option String
  pub seen_task_ids : List String

pub record EntityRecord : Type 0 where
  pub entity_id : String
  pub entity_type : String
  pub canonical_name : String
  pub trust_level : TrustLevel
  pub aliases : List String
  pub paths : List String
  pub symbols : List String
  pub summary : String
  pub relationships : List Relationship
  pub risk_notes : List String
  pub memory_refs : List String
  pub last_seen_task_ids : List String
  pub last_validated_commit : Option String
  pub status : String

pub data MemoryRecord : Type 0 where
  episode : EpisodeRecord → MemoryRecord
  long_term : LongTermRecord → MemoryRecord
  entity : EntityRecord → MemoryRecord

-- {"type": item.type, "ref": item.ref}
abbrev pub evidence_row : Evidence → Value
evidence_row item = object (field "type" (text item.type) (field "ref" (text item.ref) end))

unfoldable pub evidence_items : List Evidence → Items
evidence_items [] = nil
evidence_items (item ∷ items) = cons (evidence_row item) (evidence_items items)

unfoldable pub relationship_items : List Relationship → Items
relationship_items [] = nil
relationship_items (r ∷ rs) =
    cons (object (field "type" (text r.type) (field "target" (text r.target) end)))
      (relationship_items rs)

unfoldable pub text_fields : List (String × String) → Fields
text_fields [] = end
text_fields ((k, v) ∷ d) = field k (text v) (text_fields d)

abbrev texts : List String → Value
unfolding text_items
texts ss = array (text_items ss)

abbrev scope_row : Scope → Value
unfolding text_items
scope_row scope = object (
    field "paths" (texts scope.paths)
      (field "symbols" (texts scope.symbols) (field "nodes" (texts scope.nodes) end)))

unfoldable pub episode_row : EpisodeRecord → Fields
unfolding text_items text_fields
episode_row r = field "id" (text r.id) (
    field "task_id" (text r.task_id) (
      field "created_at" (text r.created_at) (
        field "trust_level" (text (trust_value r.trust_level)) (
          field "task_type" (text_or_null r.task_type) (
            field "base_commit" (text_or_null r.base_commit) (
              field "head_commit" (text_or_null r.head_commit) (
                field "touched_paths" (texts r.touched_paths) (
                  field "touched_symbols" (texts r.touched_symbols) (
                    field "stage_outcomes" (object (text_fields r.stage_outcomes)) (
                      field "artifact_paths" (texts r.artifact_paths)
                        (field "expires_at" (text_or_null r.expires_at) end)))))))))))

unfoldable pub long_term_row : LongTermRecord → Fields
unfolding text_items evidence_items
long_term_row r = field "memory_id" (text r.memory_id) (
    field "kind" (text (kind_value r.kind)) (
      field "subject" (text r.subject) (
        field "statement" (text r.statement) (
          field "trust_level" (text (trust_value r.trust_level)) (
            field "rationale" (text_or_null r.rationale) (
              field "scope" (scope_row r.scope) (
                field "evidence" (array (evidence_items r.evidence)) (
                  field "remedy" (text_or_null r.remedy) (
                    field "status" (text r.status) (
                      field "first_seen_commit" (text_or_null r.first_seen_commit) (
                        field "last_verified_commit" (text_or_null r.last_verified_commit) (
                          field "last_verified_at" (text_or_null r.last_verified_at) (
                            field "usage_count" (int (pos r.usage_count)) (
                              field "supersedes" (texts r.supersedes) (
                                field "first_seen_at" (text_or_null r.first_seen_at)
                                  (field "seen_task_ids" (texts r.seen_task_ids) end))))))))))))))))

unfoldable pub entity_row : EntityRecord → Fields
unfolding text_items relationship_items
entity_row r = field "entity_id" (text r.entity_id) (
    field "entity_type" (text r.entity_type) (
      field "canonical_name" (text r.canonical_name) (
        field "trust_level" (text (trust_value r.trust_level)) (
          field "aliases" (texts r.aliases) (
            field "paths" (texts r.paths) (
              field "symbols" (texts r.symbols) (
                field "summary" (text r.summary) (
                  field "relationships" (array (relationship_items r.relationships)) (
                    field "risk_notes" (texts r.risk_notes) (
                      field "memory_refs" (texts r.memory_refs) (
                        field "last_seen_task_ids" (texts r.last_seen_task_ids) (
                          field "last_validated_commit" (text_or_null r.last_validated_commit)
                            (field "status" (text r.status) end)))))))))))))

unfoldable pub as_row : MemoryRecord → Fields
unfolding episode_row long_term_row entity_row
as_row (episode r) = episode_row r
as_row (long_term r) = long_term_row r
as_row (entity r) = entity_row r

abbrev pub record_id : MemoryRecord → String
record_id (episode r) = r.id
record_id (long_term r) = r.memory_id
record_id (entity r) = r.entity_id
