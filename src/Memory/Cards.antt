-- ===== src/Memory/Cards.antt =====
-- memory/service.py: `_ingest_entity`, the way in of an entity card. The service's optional index is its
-- `path_exists`.
use wastech_orchestrator.Prelude.{
  not, ◌||◌, String, none, some, List, [], ◌∷◌, ◌++◌, if◌then◌else◌, concat, contains,
}
use wastech_orchestrator.Prelude.Json.{Fields, get_field}
use wastech_orchestrator.Memory.Lifecycle.{TrustLevel, is_durable_candidate, assign_entity_trust}
use wastech_orchestrator.Memory.Audit.{AuditContext, merge}
use wastech_orchestrator.Memory.Records.{trust_value, EntityRecord, entity, entity_row}
use wastech_orchestrator.Memory.Store.{
  MemoryService, MemoryStore, entities_path, pending_path, read, ids, find_row, replace_row,
  append_record, replace_rows, put_pending,
}
use wastech_orchestrator.Memory.Ingest.{
  CandidateEntity, WriteSource, is_failure, ApplyResult, Ingested, bump, is_nonempty, reason,
  quarantine_reason, as_str_list, texts_in,
}

-- cand.paths[0] if cand.paths else cand.entity_id
abbrev pub canonical_of : List String → String → String
canonical_of [] entity_id = entity_id
canonical_of (p ∷ paths) entity_id = p

abbrev pub card : CandidateEntity → TrustLevel → List String → String → EntityRecord
card c trust seen status = record {
  entity_id = c.entity_id;
  entity_type = c.entity_type;
  canonical_name = canonical_of c.paths c.entity_id;
  trust_level = trust;
  aliases = [];
  paths = c.paths;
  symbols = c.symbols;
  summary = c.summary;
  relationships = c.relationships;
  risk_notes = c.risk_notes;
  memory_refs = [];
  last_seen_task_ids = seen;
  last_validated_commit = none;
  status = status;
}

-- prior_ids if task_id in prior_ids else (*prior_ids, task_id), for a list of texts
abbrev seen_with : List String → String → List String
seen_with prior_ids task_id =
    if contains prior_ids task_id then prior_ids else prior_ids ++ (task_id ∷ [])

module _ (service : MemoryService) where
  unfoldable pub upsert_card :
      MemoryStore
      → CandidateEntity
      → TrustLevel
      → Fields
      → AuditContext
      → String
      → ApplyResult
      → Ingested
  unfolding read replace_row replace_rows ids entity_row get_field texts_in
  upsert_card store c trust existing audit task_id r =
      let seen = seen_with (as_str_list (get_field existing "last_seen_task_ids")) task_id in
      let row = entity_row (card c trust seen "active") in
      let rows =
        replace_row (read store entities_path) "canonical_name" (canonical_of c.paths c.entity_id)
          row in
      (
        replace_rows service store entities_path rows (ids rows) merge
            (reason audit "upserted entity card by path (latest wins; task appended)"),
        bump r 0 0 1 0,
      )

  unfoldable pub ingest_card :
      MemoryStore
      → CandidateEntity
      → TrustLevel
      → WriteSource
      → AuditContext
      → String
      → ApplyResult
      → Ingested
  unfolding is_durable_candidate put_pending read find_row append_record upsert_card
  ingest_card store c trust source audit task_id r =
      if is_failure source || not (is_durable_candidate trust)
      then (
        put_pending service store (read store pending_path)
            (entity (card c trust (task_id ∷ []) "quarantined"))
            (reason audit (quarantine_reason source (is_nonempty c.paths) trust)),
        bump r 0 1 0 0,
      )
      else elim (find_row (read store entities_path) "canonical_name"
          (canonical_of c.paths c.entity_id)) [
            | some existing ↦ upsert_card store c trust existing audit task_id r
            | none ↦ (
              append_record service store (entity (card c trust (task_id ∷ []) "active")) (
                  reason audit
                    (concat "appended entity card (" (concat (trust_value trust) " trust)"))),
              bump r 0 0 0 1,
            )
          ]

  unfoldable pub ingest_entity :
      MemoryStore → CandidateEntity → WriteSource → AuditContext → String → ApplyResult → Ingested
  unfolding assign_entity_trust ingest_card
  ingest_entity store c source audit task_id r =
      ingest_card store c (assign_entity_trust c.paths service.path_exists) source audit task_id r
