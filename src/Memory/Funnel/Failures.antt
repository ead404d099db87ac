-- ===== src/Memory/Funnel/Failures.antt =====
-- memory/service.py: what a delta from the failure seam leaves alone.
use wastech_orchestrator.Prelude.{
  ◌++◌, map, String, Option, none, some, List, [], ◌∷◌, ◌≡◌, refl, ◌∙◌,
}
use wastech_orchestrator.Prelude.Json.{Fields}
use wastech_orchestrator.Memory.Lifecycle.{assign_entity_trust}
use wastech_orchestrator.Memory.Audit.{AuditContext, append, quarantine}
use wastech_orchestrator.Memory.Records.{
  MemoryRecord, as_row, record_id, EpisodeRecord, episode, long_term, entity,
}
use wastech_orchestrator.Memory.Store.{
  recent_path, append_row, put_pending, replace_rows, redact, without_id, MemoryService,
  MemoryStore, pending_path, read, append_record,
}
use wastech_orchestrator.Memory.Ingest.{
  from_failure, CandidateLesson, CandidateFailure, CandidateEntity, CandidateDelta, ApplyResult,
  Ingested, is_nonempty, quarantine_reason, reason,
}
use wastech_orchestrator.Memory.Lessons.{
  hold, ingest_local, ingest_long_term, ingest_lesson, ingest_failure,
}
use wastech_orchestrator.Memory.Proposals.{
  Proposal, local_of, build, lesson_proposal, failure_proposal,
}
use wastech_orchestrator.Memory.Cards.{card, ingest_card, ingest_entity}
use wastech_orchestrator.Memory.Funnel.{
  owned, no_result, ingest_lessons, ingest_failures, ingest_entities, ingest_delta, apply_delta,
}
use wastech_orchestrator.Memory.Store.Writes.{
  IsDurablePath, pending-not_durable, recent-not_durable, read-save_elsewhere,
}

module _ (service : MemoryService) where
  put_pending-elsewhere :
      (store : MemoryStore) (pending : List Fields) (r : MemoryRecord) (audit : AuditContext)
      (path : String)
      → IsDurablePath path
      → read (put_pending service store pending r audit) path ≡ read store path
  unfolding put_pending replace_rows
  put_pending-elsewhere store pending r audit path durable =
      read-save_elsewhere service store pending_path path
        (map (redact service) (without_id pending (record_id r) ++ (as_row r ∷ []))) quarantine
        (record_id r ∷ []) audit pending-not_durable durable

  ingest_long_term-elsewhere :
      (store : MemoryStore) (p : Proposal) (audit : AuditContext) (now task_id : String)
      (r : ApplyResult) (path : String)
      → IsDurablePath path
      → read (ingest_long_term service store p from_failure audit now task_id r).0 path
        ≡ read store path
  unfolding ingest_long_term ingest_local hold
  ingest_long_term-elsewhere store p audit now task_id r path durable =
      let l = local_of service store p now task_id in
      put_pending-elsewhere store l.pending (long_term (build p l now "quarantined"))
        (reason audit (quarantine_reason from_failure (is_nonempty p.evidence) l.trust)) path
        durable

  ingest_entity-elsewhere :
      (store : MemoryStore) (c : CandidateEntity) (audit : AuditContext) (task_id : String)
      (r : ApplyResult) (path : String)
      → IsDurablePath path
      → read (ingest_entity service store c from_failure audit task_id r).0 path ≡ read store path
  unfolding ingest_entity ingest_card
  ingest_entity-elsewhere store c audit task_id r path durable =
      let trust = assign_entity_trust c.paths service.path_exists in
      put_pending-elsewhere store (read store pending_path)
        (entity (card c trust (task_id ∷ []) "quarantined"))
        (reason audit (quarantine_reason from_failure (is_nonempty c.paths) trust)) path durable

  ingest_lessons-elsewhere :
      (cs : List CandidateLesson) (audit : AuditContext) (now task_id : String) (s : Ingested)
      (path : String)
      → IsDurablePath path
      → read (ingest_lessons service cs from_failure audit now task_id s).0 path ≡ read s.0 path
  unfolding ingest_lessons ingest_lesson
  ingest_lessons-elsewhere [] audit now task_id s path durable = refl
  ingest_lessons-elsewhere (c ∷ cs) audit now task_id (store, r) path durable =
      ingest_lessons-elsewhere cs audit now task_id
        (ingest_lesson service store c from_failure audit now task_id r) path durable
      ∙ ingest_long_term-elsewhere store (lesson_proposal c) audit now task_id r path durable

  ingest_failures-elsewhere :
      (cs : List CandidateFailure) (audit : AuditContext) (now task_id : String) (s : Ingested)
      (path : String)
      → IsDurablePath path
      → read (ingest_failures service cs from_failure audit now task_id s).0 path ≡ read s.0 path
  unfolding ingest_failures ingest_failure
  ingest_failures-elsewhere [] audit now task_id s path durable = refl
  ingest_failures-elsewhere (c ∷ cs) audit now task_id (store, r) path durable =
      ingest_failures-elsewhere cs audit now task_id
        (ingest_failure service store c from_failure audit now task_id r) path durable
      ∙ ingest_long_term-elsewhere store (failure_proposal c) audit now task_id r path durable

  ingest_entities-elsewhere :
      (cs : List CandidateEntity) (audit : AuditContext) (task_id : String) (s : Ingested)
      (path : String)
      → IsDurablePath path
      → read (ingest_entities service cs from_failure audit task_id s).0 path ≡ read s.0 path
  unfolding ingest_entities
  ingest_entities-elsewhere [] audit task_id s path durable = refl
  ingest_entities-elsewhere (c ∷ cs) audit task_id (store, r) path durable =
      ingest_entities-elsewhere cs audit task_id
        (ingest_entity service store c from_failure audit task_id r) path durable
      ∙ ingest_entity-elsewhere store c audit task_id r path durable

  ingest_delta-elsewhere :
      (delta : Option CandidateDelta) (audit : AuditContext) (task_id : String) (s : Ingested)
      (path : String)
      → IsDurablePath path
      → read (ingest_delta service delta from_failure audit task_id s).0 path ≡ read s.0 path
  unfolding ingest_delta
  ingest_delta-elsewhere none audit task_id s path durable = refl
  ingest_delta-elsewhere (some delta) audit task_id s path durable =
      let lessons =
        ingest_lessons service delta.lessons from_failure audit audit.timestamp task_id s in
      let failures =
        ingest_failures service delta.failures from_failure audit audit.timestamp task_id lessons in
      ingest_entities-elsewhere delta.entities audit task_id failures path durable
      ∙ ingest_failures-elsewhere delta.failures audit audit.timestamp task_id lessons path durable
      ∙ ingest_lessons-elsewhere delta.lessons audit audit.timestamp task_id s path durable

  -- A delta from the failure seam changes neither a long-term file nor that of the entity cards, whatever
  -- it proposes.
  pub apply_delta_failed :
      (store : MemoryStore) (delta : Option CandidateDelta) (e : EpisodeRecord)
      (audit : AuditContext) (path : String)
      → IsDurablePath path
      → read (apply_delta service store delta e from_failure audit).0 path ≡ read store path
  unfolding apply_delta append_record append_row
  apply_delta_failed store delta e audit path durable =
      let by = owned audit e.task_id in
      let told = reason by "recorded short-term episode" in
      ingest_delta-elsewhere delta by e.task_id
        (append_record service store (episode e) told, no_result e.id) path durable
      ∙ read-save_elsewhere service store recent_path path
          (read store recent_path ++ (redact service (as_row (episode e)) ∷ [])) append (e.id ∷ [])
          told recent-not_durable durable
