-- ===== src/Memory/Funnel.antt =====
-- memory/service.py: `apply_delta`, the funnel that both seams write through.
pub mod Sound
pub mod Branches
pub mod Failures
pub mod Tally
pub mod Invariant
use wastech_orchestrator.Prelude.{String, Option, none, some, List, [], ◌∷◌, if◌then◌else◌, str_eq}
use wastech_orchestrator.Memory.Audit.{AuditContext}
use wastech_orchestrator.Memory.Records.{EpisodeRecord, episode}
use wastech_orchestrator.Memory.Store.{MemoryService, MemoryStore, append_record}
use wastech_orchestrator.Memory.Ingest.{
  CandidateLesson, CandidateFailure, CandidateEntity, CandidateDelta, WriteSource, ApplyResult,
  Ingested, reason,
}
use wastech_orchestrator.Memory.Lessons.{ingest_lesson, ingest_failure}
use wastech_orchestrator.Memory.Cards.{ingest_entity}

-- replace(audit, task_id=episode.task_id), where it has none
abbrev pub owned : AuditContext → String → AuditContext
owned audit task_id = record {
  timestamp = audit.timestamp;
  actor = audit.actor;
  rationale = audit.rationale;
  source_artifacts = audit.source_artifacts;
  task_id = if str_eq audit.task_id "" then task_id else audit.task_id;
}

-- ApplyResult(episode_id=...)
abbrev pub no_result : String → ApplyResult
no_result episode_id = record {
  episode_id = episode_id;
  promoted = 0;
  quarantined = 0;
  merged = 0;
  entities = 0;
}

module _ (service : MemoryService) where
  unfoldable pub ingest_lessons :
      List CandidateLesson → WriteSource → AuditContext → String → String → Ingested → Ingested
  unfolding ingest_lesson
  ingest_lessons [] source audit now task_id s = s
  ingest_lessons (c ∷ cs) source audit now task_id (store, r) =
      ingest_lessons cs source audit now task_id
        (ingest_lesson service store c source audit now task_id r)

  unfoldable pub ingest_failures :
      List CandidateFailure → WriteSource → AuditContext → String → String → Ingested → Ingested
  unfolding ingest_failure
  ingest_failures [] source audit now task_id s = s
  ingest_failures (c ∷ cs) source audit now task_id (store, r) =
      ingest_failures cs source audit now task_id
        (ingest_failure service store c source audit now task_id r)

  unfoldable pub ingest_entities :
      List CandidateEntity → WriteSource → AuditContext → String → Ingested → Ingested
  unfolding ingest_entity
  ingest_entities [] source audit task_id s = s
  ingest_entities (c ∷ cs) source audit task_id (store, r) =
      ingest_entities cs source audit task_id (ingest_entity service store c source audit task_id r)

  unfoldable pub ingest_delta :
      Option CandidateDelta → WriteSource → AuditContext → String → Ingested → Ingested
  unfolding ingest_lessons ingest_failures ingest_entities
  ingest_delta none source audit task_id s = s
  ingest_delta (some delta) source audit task_id s =
      ingest_entities delta.entities source audit task_id (
        ingest_failures delta.failures source audit audit.timestamp task_id
          (ingest_lessons delta.lessons source audit audit.timestamp task_id s))

  unfoldable pub apply_delta :
      MemoryStore → Option CandidateDelta → EpisodeRecord → WriteSource → AuditContext → Ingested
  unfolding append_record ingest_delta
  apply_delta store delta e source audit =
      let by = owned audit e.task_id in
      ingest_delta delta source by e.task_id (
        append_record service store (episode e) (reason by "recorded short-term episode"),
        no_result e.id,
      )
