-- ===== src/Memory/Funnel/Sound.antt =====
-- memory/service.py: sound stores, and the writes. What redaction must leave alone is a parameter: the names of
-- the trust levels, hashes, identifiers and the empty text.
use wastech_orchestrator.Prelude.{
  true, String, none, List, [], ◌∷◌, ◌++◌, map, str_eq, eq_iff, ◌≡◌, refl, sym, subst, inl, inr,
  arith, Bool-cases,
}
use wastech_orchestrator.Prelude.Json.{Fields, get_field}
use wastech_orchestrator.Memory.Lifecycle.{TrustLevel, is_durable_candidate}
use wastech_orchestrator.Memory.Audit.{AuditAction, AuditContext, append, prune, quarantine}
use wastech_orchestrator.Memory.Records.{
  LongTermKind, semantic, procedural, reviewer, failure, trust_value, MemoryRecord, EpisodeRecord,
  LongTermRecord, EntityRecord, episode, long_term, entity, as_row, record_id, long_term_row,
  entity_row,
}
use wastech_orchestrator.Memory.Store.{
  MemoryService, MemoryStore, recent_path, entities_path, pending_path, long_term_path, read, save,
  redact, replace_rows, append_row, append_record, put_pending, drop_pending, find_row, without_id,
}
use wastech_orchestrator.Memory.Store.Writes.{
  pending-not_durable, recent-not_durable, read-save, IsVerified, save-IsVerified,
}
use wastech_orchestrator.Memory.Store.Kept.{
  AreDurable, AreDurable-append, redact-IsDurableRow, redact-AreDurable,
}
use wastech_orchestrator.Memory.Store.Names.{
  IsName, AreDistinct, AreDistinct-append, redact-id, redact-AreDistinct,
}

-- Rows that this file may have.
abbrev pub IsPermitted : MemoryService → String → List Fields → Type 0
IsPermitted service path rows =
    ((kind : LongTermKind)
      → path ≡ long_term_path kind
      → AreDurable rows × AreDistinct service.redact_text rows)
    × (path ≡ entities_path → AreDurable rows)

-- In the long-term files and that of the entity cards each row has a durable trust; in a long-term file no
-- two rows have the same identifier; and the audit log verifies.
pub record IsSound (service : MemoryService) (store : MemoryStore) : Type 0 where
  pub kept : (path : String) → IsPermitted service path (read store path)
  pub verified : IsVerified service store

pub entities-apart : (kind : LongTermKind) → entities_path ≡ long_term_path kind → ⊥
entities-apart semantic e = ground (arith, eq_iff entities_path (long_term_path semantic), e)
entities-apart procedural e = ground (arith, eq_iff entities_path (long_term_path procedural), e)
entities-apart reviewer e = ground (arith, eq_iff entities_path (long_term_path reviewer), e)
entities-apart failure e = ground (arith, eq_iff entities_path (long_term_path failure), e)

module _ (service : MemoryService)
    (keeps_trust : (t : TrustLevel) → service.redact_text (trust_value t) ≡ trust_value t)
    (keeps_digest : (body : Fields)
      → service.redact_text (service.digest body) ≡ service.digest body)
    (keeps_empty : service.redact_text "" ≡ "") where
  pub save-IsSound :
      (store : MemoryStore) (path : String) (rows : List Fields) (action : AuditAction)
      (affected_ids : List String) (audit : AuditContext)
      → IsPermitted service path rows
      → IsSound service store
      → IsSound service (save service store path rows action affected_ids audit)
  save-IsSound store path rows action affected_ids audit permitted sound = record {
    kept = λ other.
        let e = read-save service store path other rows action affected_ids audit in
        subst (IsPermitted service other) (sym e) (elim (Bool-cases (str_eq path other)) [
          | inl same ↦
              rw same
                (subst (λ p. IsPermitted service p rows) ((eq_iff path other).0 same) permitted)
          | inr differs ↦ rw differs (sound.kept other)
        ]);
    verified =
        save-IsVerified service keeps_digest keeps_empty store path rows action affected_ids audit
          sound.verified;
  }

  redact-IsPermitted :
      (path : String) (rows : List Fields)
      → IsPermitted service path rows
      → IsPermitted service path (map (redact service) rows)
  redact-IsPermitted path rows h = (
    (λ kind e. (
      redact-AreDurable service keeps_trust rows (h.0 kind e).0,
      redact-AreDistinct service rows (h.0 kind e).1,
    )),
    λ e. redact-AreDurable service keeps_trust rows (h.1 e),
  )

  pub replace_rows-IsSound :
      (store : MemoryStore) (path : String) (rows : List Fields) (affected_ids : List String)
      (action : AuditAction) (audit : AuditContext)
      → IsPermitted service path rows
      → IsSound service store
      → IsSound service (replace_rows service store path rows affected_ids action audit)
  unfolding replace_rows
  replace_rows-IsSound store path rows affected_ids action audit permitted sound =
      save-IsSound store path (map (redact service) rows) action affected_ids audit
        (redact-IsPermitted path rows permitted) sound

  abbrev pub anything_pending : (rows : List Fields) → IsPermitted service pending_path rows
  anything_pending rows = (
    (λ kind e. absurd (pending-not_durable (inl (kind, e)))),
    λ e. absurd (pending-not_durable (inr e)),
  )

  abbrev pub anything_recent : (rows : List Fields) → IsPermitted service recent_path rows
  anything_recent rows = (
    (λ kind e. absurd (recent-not_durable (inl (kind, e)))),
    λ e. absurd (recent-not_durable (inr e)),
  )

  pub put_pending-IsSound :
      (store : MemoryStore) (pending : List Fields) (r : MemoryRecord) (audit : AuditContext)
      → IsSound service store
      → IsSound service (put_pending service store pending r audit)
  unfolding put_pending
  put_pending-IsSound store pending r audit sound =
      let rows = without_id pending (record_id r) ++ (as_row r ∷ []) in
      replace_rows-IsSound store pending_path rows (record_id r ∷ []) quarantine audit
        (anything_pending rows) sound

  pub drop_pending-IsSound :
      (store : MemoryStore) (pending : List Fields) (memory_id : String) (audit : AuditContext)
      → IsSound service store
      → IsSound service (drop_pending service store pending memory_id audit)
  unfolding drop_pending
  drop_pending-IsSound store pending memory_id audit sound =
      let rows = without_id pending memory_id in
      replace_rows-IsSound store pending_path rows (memory_id ∷ []) prune audit
        (anything_pending rows) sound

  pub append_episode-IsSound :
      (store : MemoryStore) (e : EpisodeRecord) (audit : AuditContext)
      → IsSound service store
      → IsSound service (append_record service store (episode e) audit)
  unfolding append_record append_row
  append_episode-IsSound store e audit sound =
      let rows = read store recent_path ++ (redact service (as_row (episode e)) ∷ []) in
      save-IsSound store recent_path rows append (e.id ∷ []) audit (anything_recent rows) sound

  pub append_lesson-IsSound :
      (store : MemoryStore) (r : LongTermRecord) (audit : AuditContext)
      → is_durable_candidate r.trust_level ≡ true
      → IsName service.redact_text r.memory_id
      → find_row (read store (long_term_path r.kind)) "memory_id" r.memory_id ≡ none
      → IsSound service store
      → IsSound service (append_record service store (long_term r) audit)
  unfolding append_record append_row as_row long_term_row get_field
  append_lesson-IsSound store r audit durable same new sound =
      let path = long_term_path r.kind in
      let row = redact service (long_term_row r) in
      let (are_durable, distinct) = (sound.kept path).0 r.kind refl in
      let rows_durable = AreDurable-append (read store path) row are_durable (
        redact-IsDurableRow service keeps_trust (long_term_row r) (r.trust_level, durable, refl)) in
      let rows_distinct =
        AreDistinct-append service.redact_text (read store path) row r.memory_id distinct
          (redact-id service (long_term_row r) r.memory_id refl same) same new in
      save-IsSound store path (read store path ++ (row ∷ [])) append (r.memory_id ∷ []) audit
        ((λ kind e. (rows_durable, rows_distinct)), λ e. rows_durable) sound

  pub append_card-IsSound :
      (store : MemoryStore) (r : EntityRecord) (audit : AuditContext)
      → is_durable_candidate r.trust_level ≡ true
      → IsSound service store
      → IsSound service (append_record service store (entity r) audit)
  unfolding append_record append_row as_row entity_row get_field
  append_card-IsSound store r audit durable sound =
      let row = redact service (entity_row r) in
      let rows_durable =
        AreDurable-append (read store entities_path) row ((sound.kept entities_path).1 refl)
          (redact-IsDurableRow service keeps_trust (entity_row r) (r.trust_level, durable, refl)) in
      save-IsSound store entities_path (read store entities_path ++ (row ∷ [])) append
        (r.entity_id ∷ []) audit ((λ kind e. absurd (entities-apart kind e)), λ e. rows_durable)
        sound
