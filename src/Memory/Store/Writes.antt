-- ===== src/Memory/Store/Writes.antt =====
-- memory/service.py: what one write of a file leaves in the files, and in the audit log.
use wastech_orchestrator.Prelude.{
  true, false, String, some, List, [], if◌then◌else◌, str_eq, eq_iff, or_default, ◌≡◌, refl, sym,
  ap, subst, ◌⊎◌, inl, inr, arith, Bool-cases,
}
use wastech_orchestrator.Prelude.Dict.{get, get-put}
use wastech_orchestrator.Prelude.Json.{Fields}
use wastech_orchestrator.Memory.Audit.{AuditAction, AuditContext, verify_chain}
use wastech_orchestrator.Memory.Audit.Chain.{record_row-verify_chain}
use wastech_orchestrator.Memory.Records.{LongTermKind, semantic, procedural, reviewer, failure}
use wastech_orchestrator.Memory.Store.{
  MemoryService, MemoryStore, recent_path, entities_path, pending_path, long_term_path, read, save,
}
use mathlib.Core.Option

-- A file of the long-term tier, or the file of the entity cards.
abbrev pub IsDurablePath : String → Type 0
IsDurablePath path = ((kind : LongTermKind) × (path ≡ long_term_path kind)) ⊎ (path ≡ entities_path)

apart : (path other : String) → str_eq path other ≡ false → path ≡ other → ⊥
apart path other h e = ground (arith, h, eq_iff path other, e)

pub pending-not_durable : IsDurablePath pending_path → ⊥
pending-not_durable (inl (semantic, e)) = apart pending_path (long_term_path semantic) refl e
pending-not_durable (inl (procedural, e)) = apart pending_path (long_term_path procedural) refl e
pending-not_durable (inl (reviewer, e)) = apart pending_path (long_term_path reviewer) refl e
pending-not_durable (inl (failure, e)) = apart pending_path (long_term_path failure) refl e
pending-not_durable (inr e) = apart pending_path entities_path refl e

pub recent-not_durable : IsDurablePath recent_path → ⊥
recent-not_durable (inl (semantic, e)) = apart recent_path (long_term_path semantic) refl e
recent-not_durable (inl (procedural, e)) = apart recent_path (long_term_path procedural) refl e
recent-not_durable (inl (reviewer, e)) = apart recent_path (long_term_path reviewer) refl e
recent-not_durable (inl (failure, e)) = apart recent_path (long_term_path failure) refl e
recent-not_durable (inr e) = apart recent_path entities_path refl e

module _ (service : MemoryService) where
  pub read-save :
      (store : MemoryStore) (path other : String) (rows : List Fields) (action : AuditAction)
      (affected_ids : List String) (audit : AuditContext)
      → read (save service store path rows action affected_ids audit) other
        ≡ (if str_eq path other then rows else read store other)
  unfolding read save
  read-save store path other rows action affected_ids audit =
      elim (Bool-cases (str_eq path other)) [
        | inl e ↦ cc (ap (λ o. or_default o []) (get-put store.files path other rows), e)
        | inr e ↦ cc (ap (λ o. or_default o []) (get-put store.files path other rows), e)
      ]

  -- The log of the store verifies.
  abbrev pub IsVerified : MemoryStore → Type 0
  IsVerified store = verify_chain service.digest store.log ≡ true

  pub save-IsVerified :
      ((body : Fields) → service.redact_text (service.digest body) ≡ service.digest body)
      → service.redact_text "" ≡ ""
      → (store : MemoryStore) (path : String) (rows : List Fields) (action : AuditAction)
        (affected_ids : List String) (audit : AuditContext)
      → IsVerified store
      → IsVerified (save service store path rows action affected_ids audit)
  unfolding save
  save-IsVerified keeps_digest keeps_empty store path rows action affected_ids audit h =
      record_row-verify_chain service.redact_text service.digest keeps_digest keeps_empty store.log
        action affected_ids (Option.map service.file_digest (get store.files path))
        (some (service.file_digest rows)) audit h

  -- A write of a file that is not durable leaves the durable ones.
  pub read-save_elsewhere :
      (store : MemoryStore) (path other : String) (rows : List Fields) (action : AuditAction)
      (affected_ids : List String) (audit : AuditContext)
      → (IsDurablePath path → ⊥)
      → IsDurablePath other
      → read (save service store path rows action affected_ids audit) other ≡ read store other
  read-save_elsewhere store path other rows action affected_ids audit apart durable =
      elim (Bool-cases (str_eq path other)) [
        | inl e ↦ absurd (apart (subst IsDurablePath (sym ((eq_iff path other).0 e)) durable))
        | inr e ↦ cc (read-save store path other rows action affected_ids audit, e)
      ]
