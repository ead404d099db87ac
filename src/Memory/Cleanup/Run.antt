-- ===== src/Memory/Cleanup/Run.antt =====
-- memory/cleanup.py: `run_once`.
use wastech_orchestrator.Prelude.{
  ℕ, ◌+◌, Bool, true, false, Option, none, some, List, [], ◌∷◌, any, if◌then◌else◌, is_some,
}
use wastech_orchestrator.Prelude.Dict.{get}
use wastech_orchestrator.Memory.Audit.{AuditContext}
use wastech_orchestrator.Memory.Records.{LongTermKind}
use wastech_orchestrator.Memory.Store.{MemoryStore}
use wastech_orchestrator.Memory.Snapshots.{Snapshot, tier_candidates, take_snapshot, kinds}
use wastech_orchestrator.Memory.Cleanup.{CleanupJob}
use wastech_orchestrator.Memory.Cleanup.Budget.{Budget, can_act}
use wastech_orchestrator.Memory.Cleanup.Passes.{
  Pass, expire_episodes, reconcile_entities, reconcile_kind, merge_kind,
}

pub record CleanupReport : Type 0 where
  pub ran : Bool
  pub scanned : ℕ
  pub expired : ℕ
  pub remapped : ℕ
  pub quarantined : ℕ
  pub merged : ℕ
  pub promoted : ℕ
  pub snapshot : Option Snapshot

module _ (job : CleanupJob) where
  -- A pass over the kinds, which stops where the budget does.
  unfoldable pub each_kind :
      (Pass → LongTermKind → AuditContext → Bool → Pass)
      → Pass
      → List LongTermKind
      → AuditContext
      → Bool
      → Pass
  unfolding can_act
  each_kind step p [] audit dry_run = p
  each_kind step p (kind ∷ rest) audit dry_run =
      let (may_act, budget) = can_act job.on_time p.budget in
      let q : Pass = record {
        store = p.store;
        budget = budget;
        remapped = p.remapped;
        others = p.others;
      } in
      if may_act then each_kind step (step q kind audit dry_run) rest audit dry_run else q

  abbrev pub no_counts : Pass → Pass
  no_counts p = record { store = p.store; budget = p.budget; remapped = 0; others = 0 }

  -- _Budget.__init__, whose reading of the clock is the start that the others are compared with
  abbrev pub start_budget : Bool → Budget
  start_budget full = record {
    full = full;
    max_scanned = job.cleanup_max_scanned;
    max_edits = job.cleanup_max_edits;
    scanned = 0;
    edits = 0;
    readings = 0;
  }

  -- The passes after the snapshot.
  unfoldable pub run_passes :
      MemoryStore → AuditContext → Bool → Bool → Option Snapshot → MemoryStore × CleanupReport
  unfolding expire_episodes reconcile_entities reconcile_kind merge_kind each_kind
  run_passes store audit full dry_run snapshot =
      let first = expire_episodes job store (start_budget full) audit dry_run in
      let second = reconcile_entities job first.store first.budget audit dry_run in
      let third = each_kind (reconcile_kind job) (no_counts second) kinds audit dry_run in
      let fourth = each_kind (merge_kind job) (no_counts third) kinds audit dry_run in
      (
        fourth.store,
        record {
          ran = true;
          scanned = fourth.budget.scanned;
          expired = first.others;
          remapped = second.remapped + third.remapped;
          quarantined = second.others + third.others;
          merged = fourth.others;
          promoted = 0;
          snapshot = snapshot;
        },
      )

  abbrev did_not_run : CleanupReport
  did_not_run = record {
    ran = false;
    scanned = 0;
    expired = 0;
    remapped = 0;
    quarantined = 0;
    merged = 0;
    promoted = 0;
    snapshot = none;
  }

  unfoldable pub run_once : MemoryStore → AuditContext → Bool → Bool → MemoryStore × CleanupReport
  unfolding get take_snapshot run_passes
  run_once store audit full dry_run =
      if any (λ path. is_some (get store.files path)) tier_candidates
      then run_passes store audit full dry_run
          (if dry_run then none else some (take_snapshot store.files tier_candidates))
      else (store, did_not_run)
