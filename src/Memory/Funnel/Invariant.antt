-- ===== src/Memory/Funnel/Invariant.antt =====
-- memory/service.py: `apply_delta`, on a sound store.
use wastech_orchestrator.Prelude.{
  true, false, not, ◌||◌, String, Option, none, some, List, [], ◌∷◌, concat, ◌≡◌, refl, inl, inr,
  arith, Bool-cases, Option-cases,
}
use wastech_orchestrator.Prelude.Json.{Fields, get_field}
use wastech_orchestrator.Memory.Lifecycle.{
  TrustLevel, is_durable_candidate, assign_entity_trust, should_promote,
}
use wastech_orchestrator.Memory.Audit.{AuditContext, merge}
use wastech_orchestrator.Memory.Records.{EpisodeRecord, entity_row, entity, trust_value}
use wastech_orchestrator.Memory.Store.{
  MemoryService, MemoryStore, entities_path, pending_path, long_term_path, read, find_row,
}
use wastech_orchestrator.Memory.Store.Kept.{AreDurable-replace_row}
use wastech_orchestrator.Memory.Store.Names.{IsName}
use wastech_orchestrator.Memory.Identity.{derive_long_term_id, prefixed_nonempty}
use wastech_orchestrator.Memory.Ingest.{
  CandidateLesson, CandidateFailure, CandidateEntity, CandidateDelta, WriteSource, is_failure,
  ApplyResult, Ingested, is_nonempty, quarantine_reason, reason,
}
use wastech_orchestrator.Memory.Lessons.{
  gate, ingest_local, recurrence, ingest_long_term, ingest_lesson, ingest_failure,
}
use wastech_orchestrator.Memory.Proposals.{
  Proposal, Local, local_of, lesson_proposal, failure_proposal,
}
use wastech_orchestrator.Memory.Cards.{canonical_of, card, upsert_card, ingest_card, ingest_entity}
use wastech_orchestrator.Memory.Funnel.{
  ingest_lessons, ingest_failures, ingest_entities, ingest_delta, apply_delta,
}
use wastech_orchestrator.Memory.Funnel.Sound.{
  IsSound, entities-apart, replace_rows-IsSound, put_pending-IsSound, append_episode-IsSound,
  append_card-IsSound,
}
use wastech_orchestrator.Memory.Funnel.Branches.{
  hold-IsSound, merge_active-IsSound, promote_lesson-IsSound,
}

module _ (service : MemoryService)
    (keeps_trust : (t : TrustLevel) → service.redact_text (trust_value t) ≡ trust_value t)
    (keeps_digest : (body : Fields)
      → service.redact_text (service.digest body) ≡ service.digest body)
    (keeps_empty : service.redact_text "" ≡ "") where
  gate-IsSound :
      (store : MemoryStore) (p : Proposal) (l : Local) (audit : AuditContext) (now : String)
      (r : ApplyResult)
      → is_durable_candidate l.trust ≡ true
      → IsName service.redact_text l.memory_id
      → find_row (read store (long_term_path p.kind)) "memory_id" l.memory_id ≡ none
      → IsSound service store
      → IsSound service (gate service store p l audit now r).0
  unfolding gate
  gate-IsSound store p l audit now r durable same new sound =
      elim (Bool-cases (
        should_promote l.trust true (recurrence service l now) service.promote_min_tasks
          p.explained_failure false false)) [
            | inl e ↦ rw e (
                promote_lesson-IsSound service keeps_trust keeps_digest keeps_empty store p l audit
                  now r durable same new sound)
            | inr e ↦ rw e (
                hold-IsSound service keeps_trust keeps_digest keeps_empty store p l audit now _ r
                  sound)
          ]

  ingest_local-IsSound :
      (store : MemoryStore) (p : Proposal) (l : Local) (source : WriteSource) (audit : AuditContext)
      (now task_id : String) (r : ApplyResult)
      → IsName service.redact_text l.memory_id
      → IsSound service store
      → IsSound service (ingest_local service store p l source audit now task_id r).0
  unfolding ingest_local
  ingest_local-IsSound store p l source audit now task_id r same sound =
      elim (Bool-cases
        (is_failure source || not (is_nonempty p.evidence) || not (is_durable_candidate l.trust))) [
          | inl e ↦ rw e (
              hold-IsSound service keeps_trust keeps_digest keeps_empty store p l audit now _ r
                sound)
          | inr e ↦
              let durable : is_durable_candidate l.trust ≡ true = ground (arith, e) in
              elim (Option-cases
                (find_row (read store (long_term_path p.kind)) "memory_id" l.memory_id)) [
                  | inl new ↦
                      rw (e, new) (gate-IsSound store p l audit now r durable same new sound)
                  | inr (existing, found) ↦
                      rw (e, found)
                        (merge_active-IsSound service keeps_trust keeps_digest keeps_empty store p l
                          existing audit now task_id r found sound)
                ]
        ]

  upsert_card-IsSound :
      (store : MemoryStore) (c : CandidateEntity) (trust : TrustLevel) (existing : Fields)
      (audit : AuditContext) (task_id : String) (r : ApplyResult)
      → is_durable_candidate trust ≡ true
      → IsSound service store
      → IsSound service (upsert_card service store c trust existing audit task_id r).0
  unfolding upsert_card entity_row get_field
  upsert_card-IsSound store c trust existing audit task_id r durable sound =
      replace_rows-IsSound service keeps_trust keeps_digest keeps_empty store entities_path _ _
        merge _
        (
          (λ kind e. absurd (entities-apart kind e)),
          λ e.
              AreDurable-replace_row (read store entities_path) "canonical_name"
                (canonical_of c.paths c.entity_id) _ ((sound.kept entities_path).1 refl)
                (trust, durable, refl),
        )
        sound

  ingest_card-IsSound :
      (store : MemoryStore) (c : CandidateEntity) (trust : TrustLevel) (source : WriteSource)
      (audit : AuditContext) (task_id : String) (r : ApplyResult)
      → IsSound service store
      → IsSound service (ingest_card service store c trust source audit task_id r).0
  unfolding ingest_card
  ingest_card-IsSound store c trust source audit task_id r sound =
      let name = canonical_of c.paths c.entity_id in
      elim (Bool-cases (is_failure source || not (is_durable_candidate trust))) [
        | inl e ↦ rw e (
            put_pending-IsSound service keeps_trust keeps_digest keeps_empty store
              (read store pending_path) (entity (card c trust (task_id ∷ []) "quarantined"))
              (reason audit (quarantine_reason source (is_nonempty c.paths) trust)) sound)
        | inr e ↦
            let durable : is_durable_candidate trust ≡ true = ground (arith, e) in
            elim (Option-cases (find_row (read store entities_path) "canonical_name" name)) [
              | inl new ↦
                  rw (e, new)
                    (append_card-IsSound service keeps_trust keeps_digest keeps_empty store
                      (card c trust (task_id ∷ []) "active") _ durable sound)
              | inr (existing, found) ↦
                  rw (e, found)
                    (upsert_card-IsSound store c trust existing audit task_id r durable sound)
            ]
      ]

  module _
      (keeps_id : (s : String)
        → service.redact_text (concat "ltm_" (service.id_digest s))
          ≡ concat "ltm_" (service.id_digest s)) where
    ingest_long_term-IsSound :
        (store : MemoryStore) (p : Proposal) (source : WriteSource) (audit : AuditContext)
        (now task_id : String) (r : ApplyResult)
        → IsSound service store
        → IsSound service (ingest_long_term service store p source audit now task_id r).0
    unfolding ingest_long_term local_of derive_long_term_id
    ingest_long_term-IsSound store p source audit now task_id r sound =
        ingest_local-IsSound store p (local_of service store p now task_id) source audit now task_id
          r (keeps_id _, prefixed_nonempty _) sound

    ingest_lesson-IsSound :
        (store : MemoryStore) (c : CandidateLesson) (source : WriteSource) (audit : AuditContext)
        (now task_id : String) (r : ApplyResult)
        → IsSound service store
        → IsSound service (ingest_lesson service store c source audit now task_id r).0
    unfolding ingest_lesson
    ingest_lesson-IsSound store c source audit now task_id r sound =
        ingest_long_term-IsSound store (lesson_proposal c) source audit now task_id r sound

    ingest_lessons-IsSound :
        (cs : List CandidateLesson) (source : WriteSource) (audit : AuditContext)
        (now task_id : String) (s : Ingested)
        → IsSound service s.0
        → IsSound service (ingest_lessons service cs source audit now task_id s).0
    unfolding ingest_lessons
    ingest_lessons-IsSound [] source audit now task_id s sound = sound
    ingest_lessons-IsSound (c ∷ cs) source audit now task_id (store, r) sound =
        ingest_lessons-IsSound cs source audit now task_id
          (ingest_lesson service store c source audit now task_id r)
          (ingest_lesson-IsSound store c source audit now task_id r sound)

    ingest_failure-IsSound :
        (store : MemoryStore) (c : CandidateFailure) (source : WriteSource) (audit : AuditContext)
        (now task_id : String) (r : ApplyResult)
        → IsSound service store
        → IsSound service (ingest_failure service store c source audit now task_id r).0
    unfolding ingest_failure
    ingest_failure-IsSound store c source audit now task_id r sound =
        ingest_long_term-IsSound store (failure_proposal c) source audit now task_id r sound

    ingest_failures-IsSound :
        (cs : List CandidateFailure) (source : WriteSource) (audit : AuditContext)
        (now task_id : String) (s : Ingested)
        → IsSound service s.0
        → IsSound service (ingest_failures service cs source audit now task_id s).0
    unfolding ingest_failures
    ingest_failures-IsSound [] source audit now task_id s sound = sound
    ingest_failures-IsSound (c ∷ cs) source audit now task_id (store, r) sound =
        ingest_failures-IsSound cs source audit now task_id
          (ingest_failure service store c source audit now task_id r)
          (ingest_failure-IsSound store c source audit now task_id r sound)

    ingest_entity-IsSound :
        (store : MemoryStore) (c : CandidateEntity) (source : WriteSource) (audit : AuditContext)
        (task_id : String) (r : ApplyResult)
        → IsSound service store
        → IsSound service (ingest_entity service store c source audit task_id r).0
    unfolding ingest_entity
    ingest_entity-IsSound store c source audit task_id r sound =
        ingest_card-IsSound store c (assign_entity_trust c.paths service.path_exists) source audit
          task_id r sound

    ingest_entities-IsSound :
        (cs : List CandidateEntity) (source : WriteSource) (audit : AuditContext) (task_id : String)
        (s : Ingested)
        → IsSound service s.0
        → IsSound service (ingest_entities service cs source audit task_id s).0
    unfolding ingest_entities
    ingest_entities-IsSound [] source audit task_id s sound = sound
    ingest_entities-IsSound (c ∷ cs) source audit task_id (store, r) sound =
        ingest_entities-IsSound cs source audit task_id
          (ingest_entity service store c source audit task_id r)
          (ingest_entity-IsSound store c source audit task_id r sound)

    ingest_delta-IsSound :
        (delta : Option CandidateDelta) (source : WriteSource) (audit : AuditContext)
        (task_id : String) (s : Ingested)
        → IsSound service s.0
        → IsSound service (ingest_delta service delta source audit task_id s).0
    unfolding ingest_delta
    ingest_delta-IsSound none source audit task_id s sound = sound
    ingest_delta-IsSound (some delta) source audit task_id s sound =
        ingest_entities-IsSound delta.entities source audit task_id _ (
          ingest_failures-IsSound delta.failures source audit audit.timestamp task_id _
            (ingest_lessons-IsSound delta.lessons source audit audit.timestamp task_id s sound))

    -- Where redaction leaves the names of the trust levels, hashes, identifiers and the empty text alone,
    -- `apply_delta` keeps a sound store sound: the rows of the long-term files and of the entity cards
    -- have a durable trust, no two rows of a long-term file have the same identifier, and the audit log
    -- verifies.
    pub apply_delta-IsSound :
        (store : MemoryStore) (delta : Option CandidateDelta) (e : EpisodeRecord)
        (source : WriteSource) (audit : AuditContext)
        → IsSound service store
        → IsSound service (apply_delta service store delta e source audit).0
    unfolding apply_delta
    apply_delta-IsSound store delta e source audit sound =
        ingest_delta-IsSound delta source _ e.task_id _
          (append_episode-IsSound service keeps_trust keeps_digest keeps_empty store e _ sound)
