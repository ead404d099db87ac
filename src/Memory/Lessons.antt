-- ===== src/Memory/Lessons.antt =====
-- memory/service.py: `_ingest_long_term`, the way in of a lesson and of a failure.
use wastech_orchestrator.Prelude.{
  ℕ, true, false, not, ◌||◌, String, none, some, [], ◌∷◌, length, if◌then◌else◌, concat, is_some,
}
use wastech_orchestrator.Prelude.Json.{Fields}
use wastech_orchestrator.Memory.Lifecycle.{is_durable_candidate, should_promote}
use wastech_orchestrator.Memory.Audit.{AuditContext, merge}
use wastech_orchestrator.Memory.Records.{kind_value, trust_value, long_term}
use wastech_orchestrator.Memory.Store.{
  MemoryService, MemoryStore, long_term_path, read, find_row, replace_row, append_record,
  replace_rows, put_pending, drop_pending,
}
use wastech_orchestrator.Memory.Ingest.{
  CandidateLesson, CandidateFailure, WriteSource, is_failure, ApplyResult, Ingested, bump,
  is_nonempty, reason, quarantine_reason, shown, merge_long_term,
}
use wastech_orchestrator.Memory.Proposals.{
  Proposal, Local, build, lesson_proposal, failure_proposal, within_window, local_of,
}

module _ (service : MemoryService) where
  unfoldable pub hold :
      MemoryStore → Proposal → Local → AuditContext → String → String → ApplyResult → Ingested
  unfolding put_pending
  hold store p l audit now why r = (
    put_pending service store l.pending (long_term (build p l now "quarantined"))
        (reason audit why),
    bump r 0 1 0 0,
  )

  unfoldable pub merge_active :
      MemoryStore
      → Proposal
      → Local
      → Fields
      → AuditContext
      → String
      → String
      → ApplyResult
      → Ingested
  unfolding read replace_row replace_rows merge_long_term
  merge_active store p l existing audit now task_id r =
      let path = long_term_path p.kind in
      let row = merge_long_term existing p.statement p.evidence now task_id in
      (
        replace_rows service store path (replace_row (read store path) "memory_id" l.memory_id row)
            (l.memory_id ∷ []) merge
            (reason audit (
              concat "merged into existing "
                (concat (kind_value p.kind) " record (same kind+scope.paths)"))),
        bump r 0 0 1 0,
      )

  unfoldable pub promote_lesson :
      MemoryStore → Proposal → Local → AuditContext → String → ApplyResult → Ingested
  unfolding append_record drop_pending
  promote_lesson store p l audit now r =
      let appended = append_record service store (long_term (build p l now "active")) (
        reason audit (
          concat "promoted to long-term ("
            (concat (trust_value l.trust) " trust, evidence, gate met)"))) in
      (
        if is_some l.prior
            then drop_pending service appended l.pending l.memory_id audit
            else appended,
        bump r 1 0 0 0,
      )

  unfoldable pub recurrence : Local → String → ℕ
  unfolding within_window
  recurrence l now = if within_window service l.first_seen now then length l.seen else 1

  unfoldable pub gate :
      MemoryStore → Proposal → Local → AuditContext → String → ApplyResult → Ingested
  unfolding recurrence should_promote promote_lesson hold
  gate store p l audit now r =
      let times = recurrence l now in
      let tasks = service.promote_min_tasks in
      let why =
        concat "held short-term: awaiting recurrence ("
          (concat (shown times) (concat "/" (concat (shown tasks) " tasks)"))) in
      if should_promote l.trust true times tasks p.explained_failure false false
      then promote_lesson store p l audit now r
      else hold store p l audit now why r

  unfoldable pub ingest_local :
      MemoryStore
      → Proposal
      → Local
      → WriteSource
      → AuditContext
      → String
      → String
      → ApplyResult
      → Ingested
  unfolding is_durable_candidate hold read find_row merge_active gate
  ingest_local store p l source audit now task_id r =
      if is_failure source || not (is_nonempty p.evidence) || not (is_durable_candidate l.trust)
      then hold store p l audit now (quarantine_reason source (is_nonempty p.evidence) l.trust) r
      else elim (find_row (read store (long_term_path p.kind)) "memory_id" l.memory_id) [
        | some existing ↦ merge_active store p l existing audit now task_id r
        | none ↦ gate store p l audit now r
      ]

  unfoldable pub ingest_long_term :
      MemoryStore → Proposal → WriteSource → AuditContext → String → String → ApplyResult → Ingested
  unfolding local_of ingest_local
  ingest_long_term store p source audit now task_id r =
      ingest_local store p (local_of service store p now task_id) source audit now task_id r

  unfoldable pub ingest_lesson :
      MemoryStore
      → CandidateLesson
      → WriteSource
      → AuditContext
      → String
      → String
      → ApplyResult
      → Ingested
  unfolding ingest_long_term
  ingest_lesson store c source audit now task_id r =
      ingest_long_term store (lesson_proposal c) source audit now task_id r

  unfoldable pub ingest_failure :
      MemoryStore
      → CandidateFailure
      → WriteSource
      → AuditContext
      → String
      → String
      → ApplyResult
      → Ingested
  unfolding ingest_long_term
  ingest_failure store c source audit now task_id r =
      ingest_long_term store (failure_proposal c) source audit now task_id r
