-- ===== src/Memory/Snapshots.antt =====
-- memory/service.py and memory/audit.py: snapshots of the tier files, `restore` and `clear`. A snapshot is
-- what its directory holds: the copied files under their paths below the memory root.
pub mod Restored
pub mod Cleared
use wastech_orchestrator.Prelude.{
  ℕ, ◌+◌, ◌==◌, Bool, true, false, not, ◌||◌, ◌&&◌, String, Option, none, some, List, [], ◌∷◌,
  length, any, if◌then◌else◌,
}
use wastech_orchestrator.Prelude.Dict.{Dict, get, put, pop, has}
use wastech_orchestrator.Prelude.Json.{Fields}
use wastech_orchestrator.Memory.Audit.{AuditContext, prune, rollback, record_row}
use wastech_orchestrator.Memory.Records.{LongTermKind, semantic, procedural, reviewer, failure}
use wastech_orchestrator.Memory.Store.{
  MemoryService, MemoryStore, recent_path, entities_path, pending_path, long_term_path, read,
  replace_rows,
}

-- _tier_candidates
abbrev pub tier_candidates : List String
tier_candidates =
    recent_path
    ∷ entities_path
    ∷ pending_path
    ∷ long_term_path semantic
    ∷ long_term_path procedural
    ∷ long_term_path reviewer
    ∷ long_term_path failure
    ∷ []

abbrev pub Snapshot : Type 0
Snapshot = Dict (List Fields)

-- take_snapshot(layout, tier_files), into a directory that is new: those of the files that exist. The
-- directory of a label that was used before would keep what it holds.
unfoldable pub take_snapshot : Dict (List Fields) → List String → Snapshot
unfolding get put
take_snapshot files [] = []
take_snapshot files (path ∷ paths) =
    let rest = take_snapshot files paths in
    elim (get files path) [ none ↦ rest | some rows ↦ put rest path rows ]

-- The tier files that the snapshot does not have are unlinked.
unfoldable pub unlink_new : Dict (List Fields) → Snapshot → List String → Dict (List Fields)
unfolding get pop
unlink_new files snapshot [] = files
unlink_new files snapshot (path ∷ paths) =
    let rest = unlink_new files snapshot paths in if has snapshot path then rest else pop rest path

-- restore_snapshot
unfoldable pub restore_files : Dict (List Fields) → Snapshot → Dict (List Fields)
unfolding put
restore_files files [] = files
restore_files files ((path, rows) ∷ snapshot) = put (restore_files files snapshot) path rows

pub data MemoryTier : Type 0 where
  short long entity quarantine : MemoryTier

abbrev same_tier : MemoryTier → MemoryTier → Bool
same_tier short short = true
same_tier long long = true
same_tier entity entity = true
same_tier quarantine quarantine = true
same_tier _ _ = false

abbrev pub kinds : List LongTermKind
kinds = semantic ∷ procedural ∷ reviewer ∷ failure ∷ []

-- The files of a tier.
abbrev pub tier_paths : MemoryTier → List String
tier_paths short = recent_path ∷ []
tier_paths long =
    long_term_path semantic
    ∷ long_term_path procedural
    ∷ long_term_path reviewer
    ∷ long_term_path failure
    ∷ []
tier_paths entity = entities_path ∷ []
tier_paths quarantine = pending_path ∷ []

-- sum(len(...))
abbrev rows_at : MemoryStore → List String → ℕ
unfolding read
rows_at store [] = 0
rows_at store (path ∷ paths) = length (read store path) + rows_at store paths

unfoldable pub tier_row_count : MemoryStore → MemoryTier → ℕ
unfolding rows_at
tier_row_count store tier = rows_at store (tier_paths tier)

-- { tier: count for tier in dict.fromkeys(tiers) if count }, for tiers of which `seen` came before.
unfoldable pub to_clear : MemoryStore → List MemoryTier → List MemoryTier → List (MemoryTier × ℕ)
unfolding tier_row_count
to_clear store seen [] = []
to_clear store seen (tier ∷ tiers) =
    let rest = to_clear store (tier ∷ seen) tiers in
    if any (same_tier tier) seen || tier_row_count store tier == 0
    then rest
    else (tier, tier_row_count store tier) ∷ rest

pub record ClearReport : Type 0 where
  pub snapshot : Option Snapshot
  pub cleared : List (MemoryTier × ℕ)

module _ (service : MemoryService) where
  unfoldable pub restore : MemoryStore → Snapshot → AuditContext → MemoryStore
  unfolding unlink_new restore_files record_row
  restore store snapshot audit = record {
    files = restore_files (unlink_new store.files snapshot tier_candidates) snapshot;
    log = record_row service.redact_text service.digest store.log rollback [] none none audit;
  }

  -- if self.read_long_term(kind): self.replace_long_term(kind, [], ...)
  unfoldable pub clear_kinds : MemoryStore → List LongTermKind → AuditContext → MemoryStore
  unfolding read replace_rows
  clear_kinds store [] audit = store
  clear_kinds store (kind ∷ rest) audit =
      let path = long_term_path kind in
      clear_kinds
        (if length (read store path) == 0
          then store
          else replace_rows service store path [] [] prune audit)
        rest audit

  unfoldable pub clear_tier : MemoryStore → MemoryTier → AuditContext → MemoryStore
  unfolding replace_rows clear_kinds
  clear_tier store short audit = replace_rows service store recent_path [] [] prune audit
  clear_tier store long audit = clear_kinds store kinds audit
  clear_tier store entity audit = replace_rows service store entities_path [] [] prune audit
  clear_tier store quarantine audit = replace_rows service store pending_path [] [] prune audit

  unfoldable pub clear_tiers : MemoryStore → List (MemoryTier × ℕ) → AuditContext → MemoryStore
  unfolding clear_tier
  clear_tiers store [] audit = store
  clear_tiers store ((tier, count) ∷ tiers) audit =
      clear_tiers (clear_tier store tier audit) tiers audit

  -- `clear`, where these tiers have rows.
  unfoldable pub clear_counted :
      MemoryStore → List (MemoryTier × ℕ) → AuditContext → MemoryStore × ClearReport
  unfolding take_snapshot clear_tiers
  clear_counted store [] audit = (store, record { snapshot = none; cleared = [] })
  clear_counted store (t ∷ ts) audit = (
    clear_tiers store (t ∷ ts) audit,
    record { snapshot = some (take_snapshot store.files tier_candidates); cleared = t ∷ ts },
  )

  unfoldable pub clear : MemoryStore → List MemoryTier → AuditContext → MemoryStore × ClearReport
  unfolding to_clear clear_counted
  clear store tiers audit = clear_counted store (to_clear store [] tiers) audit
