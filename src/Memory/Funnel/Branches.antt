-- ===== src/Memory/Funnel/Branches.antt =====
-- memory/service.py: the branches of `_ingest_long_term`, on a sound store.
use wastech_orchestrator.Prelude.{
  true, String, none, some, List, [], ◌∷◌, is_some, ◌≡◌, refl, ◌∙◌, inl, inr, Bool-cases,
}
use wastech_orchestrator.Prelude.Json.{Fields, get_field, get_field-put_field}
use wastech_orchestrator.Memory.Lifecycle.{Evidence, TrustLevel, is_durable_candidate}
use wastech_orchestrator.Memory.Audit.{AuditContext, merge}
use wastech_orchestrator.Memory.Records.{long_term, trust_value}
use wastech_orchestrator.Memory.Store.{
  MemoryService, MemoryStore, long_term_path, read, replace_row, find_row,
}
use wastech_orchestrator.Memory.Store.Kept.{AreDurable-replace_row, find_row-IsDurableRow}
use wastech_orchestrator.Memory.Store.Names.{IsName, find_row-is_text, AreDistinct-replace_row}
use wastech_orchestrator.Memory.Ingest.{ApplyResult, reason, merge_long_term}
use wastech_orchestrator.Memory.Lessons.{hold, merge_active, promote_lesson}
use wastech_orchestrator.Memory.Proposals.{Proposal, Local, build}
use wastech_orchestrator.Memory.Funnel.Sound.{
  IsSound, replace_rows-IsSound, put_pending-IsSound, drop_pending-IsSound, append_lesson-IsSound,
}

-- Merging leaves the other fields alone.
merge-trust_level :
    (existing : Fields) (statement : String) (evidence : List Evidence) (now task_id : String)
    → get_field (merge_long_term existing statement evidence now task_id) "trust_level"
      ≡ get_field existing "trust_level"
unfolding merge_long_term
merge-trust_level existing statement evidence now task_id = simp get_field-put_field

merge-memory_id :
    (existing : Fields) (statement : String) (evidence : List Evidence) (now task_id : String)
    → get_field (merge_long_term existing statement evidence now task_id) "memory_id"
      ≡ get_field existing "memory_id"
unfolding merge_long_term
merge-memory_id existing statement evidence now task_id = simp get_field-put_field

module _ (service : MemoryService)
    (keeps_trust : (t : TrustLevel) → service.redact_text (trust_value t) ≡ trust_value t)
    (keeps_digest : (body : Fields)
      → service.redact_text (service.digest body) ≡ service.digest body)
    (keeps_empty : service.redact_text "" ≡ "") where
  pub hold-IsSound :
      (store : MemoryStore) (p : Proposal) (l : Local) (audit : AuditContext) (now why : String)
      (r : ApplyResult)
      → IsSound service store
      → IsSound service (hold service store p l audit now why r).0
  unfolding hold
  hold-IsSound store p l audit now why r sound =
      put_pending-IsSound service keeps_trust keeps_digest keeps_empty store l.pending
        (long_term (build p l now "quarantined")) (reason audit why) sound

  pub merge_active-IsSound :
      (store : MemoryStore) (p : Proposal) (l : Local) (existing : Fields) (audit : AuditContext)
      (now task_id : String) (r : ApplyResult)
      → find_row (read store (long_term_path p.kind)) "memory_id" l.memory_id ≡ some existing
      → IsSound service store
      → IsSound service (merge_active service store p l existing audit now task_id r).0
  unfolding merge_active
  merge_active-IsSound store p l existing audit now task_id r found sound =
      let path = long_term_path p.kind in
      let rows = read store path in
      let row = merge_long_term existing p.statement p.evidence now task_id in
      let (are_durable, distinct) = (sound.kept path).0 p.kind refl in
      let (trust, durable, has) =
        find_row-IsDurableRow rows "memory_id" l.memory_id existing are_durable found in
      let rows_durable =
        AreDurable-replace_row rows "memory_id" l.memory_id row are_durable
          (trust, durable, merge-trust_level existing p.statement p.evidence now task_id ∙ has) in
      let rows_distinct =
        AreDistinct-replace_row service.redact_text rows row l.memory_id distinct (
          merge-memory_id existing p.statement p.evidence now task_id
          ∙ find_row-is_text rows "memory_id" l.memory_id existing found) in
      replace_rows-IsSound service keeps_trust keeps_digest keeps_empty store path
        (replace_row rows "memory_id" l.memory_id row) (l.memory_id ∷ []) merge _
        ((λ kind e. (rows_durable, rows_distinct)), λ e. rows_durable) sound

  pub promote_lesson-IsSound :
      (store : MemoryStore) (p : Proposal) (l : Local) (audit : AuditContext) (now : String)
      (r : ApplyResult)
      → is_durable_candidate l.trust ≡ true
      → IsName service.redact_text l.memory_id
      → find_row (read store (long_term_path p.kind)) "memory_id" l.memory_id ≡ none
      → IsSound service store
      → IsSound service (promote_lesson service store p l audit now r).0
  unfolding promote_lesson
  promote_lesson-IsSound store p l audit now r durable same new sound =
      let appended =
        append_lesson-IsSound service keeps_trust keeps_digest keeps_empty store
          (build p l now "active") _ durable same new sound in
      elim (Bool-cases (is_some l.prior)) [
        | inl e ↦ rw e (
            drop_pending-IsSound service keeps_trust keeps_digest keeps_empty _ l.pending
              l.memory_id audit appended)
        | inr e ↦ rw e appended
      ]
