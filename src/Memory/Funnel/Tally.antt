-- ===== src/Memory/Funnel/Tally.antt =====
-- memory/service.py: what `apply_delta` reports.
use wastech_orchestrator.Prelude.{ℕ, suc, ◌+◌, length, String, some, List, [], ◌∷◌, ◌≡◌, arith}
use wastech_orchestrator.Memory.Audit.{AuditContext}
use wastech_orchestrator.Memory.Records.{EpisodeRecord, episode}
use wastech_orchestrator.Memory.Store.{MemoryService, MemoryStore, append_record}
use wastech_orchestrator.Memory.Ingest.{
  CandidateLesson, CandidateFailure, CandidateEntity, CandidateDelta, WriteSource, ApplyResult,
  Ingested, reason,
}
use wastech_orchestrator.Memory.Lessons.{
  hold, merge_active, promote_lesson, gate, ingest_local, ingest_long_term, ingest_lesson,
  ingest_failure,
}
use wastech_orchestrator.Memory.Proposals.{
  Proposal, Local, local_of, lesson_proposal, failure_proposal,
}
use wastech_orchestrator.Memory.Cards.{upsert_card, ingest_card, ingest_entity}
use wastech_orchestrator.Memory.Funnel.{
  owned, no_result, ingest_lessons, ingest_failures, ingest_entities, ingest_delta, apply_delta,
}

-- The candidates that the result counts.
abbrev pub counted : ApplyResult → ℕ
counted r = r.promoted + r.quarantined + r.merged + r.entities

module _ (service : MemoryService) where
  ingest_local-counted :
      (store : MemoryStore) (p : Proposal) (l : Local) (source : WriteSource) (audit : AuditContext)
      (now task_id : String) (r : ApplyResult)
      → counted (ingest_local service store p l source audit now task_id r).1 ≡ suc (counted r)
  unfolding ingest_local hold merge_active gate promote_lesson
  ingest_local-counted store p l source audit now task_id r = ground arith

  ingest_entity-counted :
      (store : MemoryStore) (c : CandidateEntity) (source : WriteSource) (audit : AuditContext)
      (task_id : String) (r : ApplyResult)
      → counted (ingest_entity service store c source audit task_id r).1 ≡ suc (counted r)
  unfolding ingest_entity ingest_card upsert_card
  ingest_entity-counted store c source audit task_id r = ground arith

  ingest_lessons-counted :
      (cs : List CandidateLesson) (source : WriteSource) (audit : AuditContext)
      (now task_id : String) (s : Ingested)
      → counted (ingest_lessons service cs source audit now task_id s).1 ≡ counted s.1 + length cs
  unfolding ingest_lessons ingest_lesson ingest_long_term
  ingest_lessons-counted [] source audit now task_id s = omega arith
  ingest_lessons-counted (c ∷ cs) source audit now task_id (store, r) =
      let p = lesson_proposal c in
      omega (
        arith,
        ingest_lessons-counted cs source audit now task_id
            (ingest_lesson service store c source audit now task_id r),
        ingest_local-counted store p (local_of service store p now task_id) source audit now task_id
            r,
      )

  ingest_failures-counted :
      (cs : List CandidateFailure) (source : WriteSource) (audit : AuditContext)
      (now task_id : String) (s : Ingested)
      → counted (ingest_failures service cs source audit now task_id s).1 ≡ counted s.1 + length cs
  unfolding ingest_failures ingest_failure ingest_long_term
  ingest_failures-counted [] source audit now task_id s = omega arith
  ingest_failures-counted (c ∷ cs) source audit now task_id (store, r) =
      let p = failure_proposal c in
      omega (
        arith,
        ingest_failures-counted cs source audit now task_id
            (ingest_failure service store c source audit now task_id r),
        ingest_local-counted store p (local_of service store p now task_id) source audit now task_id
            r,
      )

  ingest_entities-counted :
      (cs : List CandidateEntity) (source : WriteSource) (audit : AuditContext) (task_id : String)
      (s : Ingested)
      → counted (ingest_entities service cs source audit task_id s).1 ≡ counted s.1 + length cs
  unfolding ingest_entities
  ingest_entities-counted [] source audit task_id s = omega arith
  ingest_entities-counted (c ∷ cs) source audit task_id (store, r) = omega (
    arith,
    ingest_entities-counted cs source audit task_id
        (ingest_entity service store c source audit task_id r),
    ingest_entity-counted store c source audit task_id r,
  )

  -- Each candidate of a delta is counted exactly once, as promoted, merged, quarantined or a new card.
  pub apply_delta-counted :
      (store : MemoryStore) (delta : CandidateDelta) (e : EpisodeRecord) (source : WriteSource)
      (audit : AuditContext)
      → counted (apply_delta service store (some delta) e source audit).1
        ≡ length delta.lessons + length delta.failures + length delta.entities
  unfolding apply_delta ingest_delta
  apply_delta-counted store delta e source audit =
      let by = owned audit e.task_id in
      let told = reason by "recorded short-term episode" in
      let now = by.timestamp in
      let start : Ingested = (append_record service store (episode e) told, no_result e.id) in
      let lessons = ingest_lessons service delta.lessons source by now e.task_id start in
      let failures = ingest_failures service delta.failures source by now e.task_id lessons in
      omega (
        arith,
        ingest_entities-counted delta.entities source by e.task_id failures,
        ingest_failures-counted delta.failures source by now e.task_id lessons,
        ingest_lessons-counted delta.lessons source by now e.task_id start,
      )
