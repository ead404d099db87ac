-- ===== src/Memory/Cleanup/Bounded.antt =====
-- memory/cleanup.py: the edits that the passes spend.
use wastech_orchestrator.Prelude.{
  any, is_some, filter, subst, sym, ◌∙◌, ℕ, ◌+◌, ◌≤◌, ◌==◌, Bool, false, ◌||◌, ltb, Option, none,
  some, List, [], ◌∷◌, length, if◌then◌else◌, ◌≡◌, refl, inl, inr, arith, Bool-cases,
}
use wastech_orchestrator.Prelude.Json.{text}
use wastech_orchestrator.Memory.Audit.{AuditContext}
use wastech_orchestrator.Memory.Records.{LongTermKind}
use wastech_orchestrator.Memory.Store.{
  MemoryStore, recent_path, entities_path, long_term_path, read,
}
use wastech_orchestrator.Memory.Snapshots.{Snapshot, take_snapshot, tier_candidates, kinds}
use wastech_orchestrator.Prelude.Dict.{get}
use wastech_orchestrator.Memory.Cleanup.{CleanupJob, classify_entity, classify_lesson}
use wastech_orchestrator.Memory.Cleanup.Budget.{Budget, scan, spend_edits, allow_edits, can_act}
use wastech_orchestrator.Memory.Cleanup.Collapse.{collapse_duplicates}
use wastech_orchestrator.Memory.Cleanup.Passes.{
  Pass, expire_episodes, episode_expired, oldest_first, reconcile_entities, reconcile_kind,
  merge_kind, parse,
}
use wastech_orchestrator.Memory.Cleanup.Run.{
  each_kind, no_counts, start_budget, run_passes, run_once,
}
use wastech_orchestrator.Memory.Cleanup.Reconcile.{start_loop}
use wastech_orchestrator.Memory.Cleanup.Dropped.{AreApart}
use wastech_orchestrator.Memory.Cleanup.Recent.{
  recent, Keeps, Keeps-refl, expire_episodes-Keeps, recent-reconcile_entities,
  recent-reconcile_kind, recent-merge_kind, recent-each_kind,
}
use wastech_orchestrator.Memory.Cleanup.Spent.{
  IsSpent, IsSpent-trans, IsSpent-refl, IsSpent-allow_edits, can_act-IsSpent,
  reconcile_rows-IsSpent,
}

module _ (job : CleanupJob) where
  -- What a pass spends, it counts.
  abbrev IsPaid : Budget → ℕ → Pass → Type 0
  IsPaid b counted p = (n : ℕ) × IsSpent b p.budget n × (p.remapped + p.others ≡ counted + n)

  expire_episodes-IsPaid :
      (store : MemoryStore) (b : Budget) (audit : AuditContext) (dry_run : Bool)
      → IsPaid b 0 (expire_episodes job store b audit dry_run)
  unfolding expire_episodes
  expire_episodes-IsPaid store b audit dry_run =
      let rows = read store recent_path in
      let expired =
        oldest_first
          (filter (episode_expired job (parse job (some (text audit.timestamp)))) rows) in
      let take = allow_edits (scan b (length rows)) (length expired) in
      elim (Bool-cases (length rows == 0 || take == 0)) [
        | inl e ↦ rw (expire_episodes, e) (0, IsSpent-refl b, omega arith)
        | inr e ↦
            rw (expire_episodes, e) (take, IsSpent-allow_edits b (length expired), omega arith)
      ]

  reconcile_entities-IsPaid :
      (store : MemoryStore) (b : Budget) (audit : AuditContext) (dry_run : Bool)
      → IsPaid b 0 (reconcile_entities job store b audit dry_run)
  unfolding reconcile_entities
  reconcile_entities-IsPaid store b audit dry_run =
      reconcile_rows-IsSpent job.on_time (classify_entity job) (start_loop b)
        (read store entities_path)

  reconcile_kind-IsPaid :
      (p : Pass) (kind : LongTermKind) (audit : AuditContext) (dry_run : Bool)
      → IsPaid p.budget (p.remapped + p.others) (reconcile_kind job p kind audit dry_run)
  unfolding reconcile_kind
  reconcile_kind-IsPaid p kind audit dry_run =
      let (n, h, q) =
        reconcile_rows-IsSpent job.on_time (classify_lesson job kind) (start_loop p.budget)
          (read p.store (long_term_path kind)) in
      (n, h, omega (arith, q))

  merge_kind-IsPaid :
      (p : Pass) (kind : LongTermKind) (audit : AuditContext) (dry_run : Bool)
      → IsPaid p.budget (p.remapped + p.others) (merge_kind job p kind audit dry_run)
  unfolding merge_kind
  merge_kind-IsPaid p kind audit dry_run =
      let b = scan p.budget (length (read p.store (long_term_path kind))) in
      let merges = (collapse_duplicates job.service (read p.store (long_term_path kind))).1 in
      elim (Bool-cases (merges == 0 || ltb (allow_edits b merges) merges)) [
        | inl e ↦ rw (merge_kind, e) (0, IsSpent-refl p.budget, omega arith)
        | inr e ↦
            let whole : allow_edits b merges ≡ merges = ground (arith, e) in
            rw (merge_kind, e)
              (
                merges,
                subst (λ n. IsSpent b (spend_edits b n) n) whole (IsSpent-allow_edits b merges),
                omega arith,
              )
      ]

  each_kind-IsPaid :
      (step : Pass → LongTermKind → AuditContext → Bool → Pass)
      → ((q : Pass) (kind : LongTermKind) (audit : AuditContext) (dry_run : Bool)
          → IsPaid q.budget (q.remapped + q.others) (step q kind audit dry_run))
      → (p : Pass) (ks : List LongTermKind) (audit : AuditContext) (dry_run : Bool)
      → IsPaid p.budget (p.remapped + p.others) (each_kind job step p ks audit dry_run)
  unfolding each_kind
  each_kind-IsPaid step paid p [] audit dry_run = (0, IsSpent-refl p.budget, omega arith)
  each_kind-IsPaid step paid p (kind ∷ ks) audit dry_run =
      let asked = (can_act job.on_time p.budget).1 in
      let (same, _) = can_act-IsSpent job.on_time p.budget in
      let q : Pass = record {
        store = p.store;
        budget = asked;
        remapped = p.remapped;
        others = p.others;
      } in
      elim (Bool-cases (can_act job.on_time p.budget).0) [
        | inl e ↦
            let after = step q kind audit dry_run in
            let (m, h, c) = paid q kind audit dry_run in
            let (n, k, d) = each_kind-IsPaid step paid after ks audit dry_run in
            let last = each_kind job step after ks audit dry_run in
            rw (each_kind, e)
              (
                0 + (m + n),
                IsSpent-trans p.budget asked last.budget 0 (m + n) same
                    (IsSpent-trans asked after.budget last.budget m n h k),
                omega (arith, c, d),
              )
        | inr e ↦ rw (each_kind, e) (0, same, omega arith)
      ]

  run_passes-bounded :
      (store : MemoryStore) (audit : AuditContext) (dry_run : Bool) (snapshot : Option Snapshot)
      → (let report = (run_passes job store audit false dry_run snapshot).1 in
          report.expired + report.remapped + report.quarantined + report.merged)
        ≤ job.cleanup_max_edits
  unfolding run_passes
  run_passes-bounded store audit dry_run snapshot =
      let b = start_budget job false in
      let first = expire_episodes job store b audit dry_run in
      let second = reconcile_entities job first.store first.budget audit dry_run in
      let lessons = no_counts job second in
      let third = each_kind job (reconcile_kind job) lessons kinds audit dry_run in
      let merges = no_counts job third in
      let fourth = each_kind job (merge_kind job) merges kinds audit dry_run in
      let (k, h, p) = expire_episodes-IsPaid store b audit dry_run in
      let (l, i, q) = reconcile_entities-IsPaid first.store first.budget audit dry_run in
      let (m, j, r) =
        each_kind-IsPaid (reconcile_kind job) reconcile_kind-IsPaid lessons kinds audit dry_run in
      let (n, g, s) =
        each_kind-IsPaid (merge_kind job) merge_kind-IsPaid merges kinds audit dry_run in
      let spent =
        IsSpent-trans b third.budget fourth.budget (k + (l + m)) n
          (IsSpent-trans b first.budget third.budget k (l + m) h
            (IsSpent-trans first.budget second.budget third.budget l m i j))
          g in
      omega (arith, p, q, r, s, spent.2, spent.3 refl (omega arith))

  run_passes-Keeps :
      (store : MemoryStore) (audit : AuditContext) (full dry_run : Bool)
      (snapshot : Option Snapshot)
      → AreApart (recent store)
      → (let (after, report) = run_passes job store audit full dry_run snapshot in
          Keeps job audit (recent store) (recent after) report.expired)
  unfolding run_passes
  run_passes-Keeps store audit full dry_run snapshot apart =
      let first = expire_episodes job store (start_budget job full) audit dry_run in
      let second = reconcile_entities job first.store first.budget audit dry_run in
      let lessons = no_counts job second in
      let third = each_kind job (reconcile_kind job) lessons kinds audit dry_run in
      let merges = no_counts job third in
      let same : recent (each_kind job (merge_kind job) merges kinds audit dry_run).store
          ≡ recent first.store =
        recent-each_kind job (merge_kind job) (recent-merge_kind job) merges kinds audit dry_run
        ∙ recent-each_kind job (reconcile_kind job) (recent-reconcile_kind job) lessons kinds audit
            dry_run
        ∙ recent-reconcile_entities job first.store first.budget audit dry_run in
      subst (λ after. Keeps job audit (recent store) after first.others) (sym same)
        (expire_episodes-Keeps job store (start_budget job full) audit dry_run apart)

  -- Where no two recent episodes have the same identifier, and unless the caps are lifted: the rows that
  -- the report of a pass counts as expired, remapped, quarantined and merged are together at most the cap
  -- on edits; the file of recent episodes loses at most as many rows as are counted as expired; and each
  -- of its rows that has not expired is still there, as it was or redacted.
  pub run_once-bounded :
      (store : MemoryStore) (audit : AuditContext) (dry_run : Bool)
      → AreApart (recent store)
      → (let (after, report) = run_once job store audit false dry_run in
          (report.expired + report.remapped + report.quarantined + report.merged
            ≤ job.cleanup_max_edits)
          × Keeps job audit (recent store) (recent after) report.expired)
  unfolding run_once
  run_once-bounded store audit dry_run apart =
      let snapshot = if dry_run then none else some (take_snapshot store.files tier_candidates) in
      elim (Bool-cases (any (λ path. is_some (get store.files path)) tier_candidates)) [
        | inl e ↦
            rw (run_once, e)
              (
                run_passes-bounded store audit dry_run snapshot,
                run_passes-Keeps store audit false dry_run snapshot apart,
              )
        | inr e ↦ rw (run_once, e) (omega arith, Keeps-refl job audit (recent store))
      ]
