-- ===== src/Memory/Snapshots/Cleared.antt =====
-- memory/service.py: clearing tiers.
use wastech_orchestrator.Prelude.{ℕ, ◌==◌, String, List, [], ◌∷◌, length, ◌≡◌, inl, inr, Bool-cases}
use wastech_orchestrator.Prelude.Json.{Fields}
use wastech_orchestrator.Memory.Lifecycle.{TrustLevel}
use wastech_orchestrator.Memory.Audit.{AuditContext, prune}
use wastech_orchestrator.Memory.Records.{LongTermKind, trust_value}
use wastech_orchestrator.Memory.Store.{
  MemoryService, MemoryStore, recent_path, entities_path, pending_path, long_term_path, read,
  replace_rows,
}
use wastech_orchestrator.Memory.Funnel.Sound.{IsSound, replace_rows-IsSound}
use wastech_orchestrator.Memory.Snapshots.{
  MemoryTier, short, long, entity, quarantine, to_clear, clear_kinds, clear_tier, clear_tiers,
  clear_counted, clear, kinds,
}

module _ (service : MemoryService)
    (keeps_trust : (t : TrustLevel) → service.redact_text (trust_value t) ≡ trust_value t)
    (keeps_digest : (body : Fields)
      → service.redact_text (service.digest body) ≡ service.digest body)
    (keeps_empty : service.redact_text "" ≡ "") where
  -- A file may be empty.
  empty-IsSound :
      (store : MemoryStore) (path : String) (audit : AuditContext)
      → IsSound service store
      → IsSound service (replace_rows service store path [] [] prune audit)
  empty-IsSound store path audit sound =
      replace_rows-IsSound service keeps_trust keeps_digest keeps_empty store path [] [] prune audit
        ((λ kind e. (tt, tt)), λ e. tt) sound

  clear_kinds-IsSound :
      (store : MemoryStore) (ks : List LongTermKind) (audit : AuditContext)
      → IsSound service store
      → IsSound service (clear_kinds service store ks audit)
  unfolding clear_kinds
  clear_kinds-IsSound store [] audit sound = sound
  clear_kinds-IsSound store (kind ∷ ks) audit sound =
      let path = long_term_path kind in
      elim (Bool-cases (length (read store path) == 0)) [
        | inl e ↦ rw (clear_kinds, e) (clear_kinds-IsSound store ks audit sound)
        | inr e ↦
            rw (clear_kinds, e)
              (clear_kinds-IsSound (replace_rows service store path [] [] prune audit) ks audit
                (empty-IsSound store path audit sound))
      ]

  clear_tier-IsSound :
      (store : MemoryStore) (tier : MemoryTier) (audit : AuditContext)
      → IsSound service store
      → IsSound service (clear_tier service store tier audit)
  unfolding clear_tier
  clear_tier-IsSound store short audit sound = empty-IsSound store recent_path audit sound
  clear_tier-IsSound store long audit sound = clear_kinds-IsSound store kinds audit sound
  clear_tier-IsSound store entity audit sound = empty-IsSound store entities_path audit sound
  clear_tier-IsSound store quarantine audit sound = empty-IsSound store pending_path audit sound

  clear_tiers-IsSound :
      (store : MemoryStore) (tiers : List (MemoryTier × ℕ)) (audit : AuditContext)
      → IsSound service store
      → IsSound service (clear_tiers service store tiers audit)
  unfolding clear_tiers
  clear_tiers-IsSound store [] audit sound = sound
  clear_tiers-IsSound store ((tier, count) ∷ tiers) audit sound =
      clear_tiers-IsSound (clear_tier service store tier audit) tiers audit
        (clear_tier-IsSound store tier audit sound)

  clear_counted-IsSound :
      (store : MemoryStore) (tiers : List (MemoryTier × ℕ)) (audit : AuditContext)
      → IsSound service store
      → IsSound service (clear_counted service store tiers audit).0
  unfolding clear_counted
  clear_counted-IsSound store [] audit sound = sound
  clear_counted-IsSound store (t ∷ ts) audit sound = clear_tiers-IsSound store (t ∷ ts) audit sound

  -- Clearing tiers keeps a sound store sound.
  pub clear-IsSound :
      (store : MemoryStore) (tiers : List MemoryTier) (audit : AuditContext)
      → IsSound service store
      → IsSound service (clear service store tiers audit).0
  unfolding clear
  clear-IsSound store tiers audit sound =
      clear_counted-IsSound store (to_clear store [] tiers) audit sound
