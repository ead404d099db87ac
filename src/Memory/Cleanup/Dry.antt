-- ===== src/Memory/Cleanup/Dry.antt =====
-- memory/cleanup.py: a dry run.
use wastech_orchestrator.Prelude.{
  Bool, true, any, is_some, none, List, [], ◌∷◌, ◌≡◌, refl, ◌∙◌, inl, inr, arith, Bool-cases,
}
use wastech_orchestrator.Prelude.Dict.{get}
use wastech_orchestrator.Memory.Audit.{AuditContext}
use wastech_orchestrator.Memory.Records.{LongTermKind}
use wastech_orchestrator.Memory.Store.{MemoryStore}
use wastech_orchestrator.Memory.Snapshots.{tier_candidates, kinds}
use wastech_orchestrator.Memory.Cleanup.{CleanupJob}
use wastech_orchestrator.Memory.Cleanup.Budget.{Budget, can_act}
use wastech_orchestrator.Memory.Cleanup.Passes.{
  Pass, expire_episodes, reconcile_entities, reconcile_kind, merge_kind,
}
use wastech_orchestrator.Memory.Cleanup.Run.{
  each_kind, no_counts, start_budget, run_passes, run_once,
}

module _ (job : CleanupJob) where
  expire_episodes_dry :
      (store : MemoryStore) (b : Budget) (audit : AuditContext)
      → (expire_episodes job store b audit true).store ≡ store
  unfolding expire_episodes
  expire_episodes_dry store b audit = ground arith

  merge_kind_dry :
      (p : Pass) (kind : LongTermKind) (audit : AuditContext)
      → (merge_kind job p kind audit true).store ≡ p.store
  unfolding merge_kind
  merge_kind_dry p kind audit = ground arith

  each_kind_dry :
      (step : Pass → LongTermKind → AuditContext → Bool → Pass)
      → ((q : Pass) (kind : LongTermKind) (audit : AuditContext)
          → (step q kind audit true).store ≡ q.store)
      → (p : Pass) (ks : List LongTermKind) (audit : AuditContext)
      → (each_kind job step p ks audit true).store ≡ p.store
  unfolding each_kind
  each_kind_dry step dry p [] audit = refl
  each_kind_dry step dry p (kind ∷ ks) audit =
      let q : Pass = record {
        store = p.store;
        budget = (can_act job.on_time p.budget).1;
        remapped = p.remapped;
        others = p.others;
      } in
      elim (Bool-cases (can_act job.on_time p.budget).0) [
        | inl e ↦
            rw (each_kind, e)
              (each_kind_dry step dry (step q kind audit true) ks audit ∙ dry q kind audit)
        | inr e ↦ rw (each_kind, e) refl
      ]

  -- A dry run leaves the store as it is.
  pub run_once_dry :
      (store : MemoryStore) (audit : AuditContext) (full : Bool)
      → (run_once job store audit full true).0 ≡ store
  unfolding run_once run_passes reconcile_entities reconcile_kind
  run_once_dry store audit full =
      let first = expire_episodes job store (start_budget job full) audit true in
      let second = reconcile_entities job first.store first.budget audit true in
      let third = each_kind job (reconcile_kind job) (no_counts job second) kinds audit true in
      let passes : (run_passes job store audit full true none).0 ≡ store =
        each_kind_dry (merge_kind job) merge_kind_dry (no_counts job third) kinds audit
        ∙ each_kind_dry (reconcile_kind job) (λ q kind by. refl) (no_counts job second) kinds audit
        ∙ expire_episodes_dry store (start_budget job full) audit in
      elim (Bool-cases (any (λ path. is_some (get store.files path)) tier_candidates)) [
        | inl e ↦ rw (run_once, e) passes
        | inr e ↦ rw (run_once, e) refl
      ]
