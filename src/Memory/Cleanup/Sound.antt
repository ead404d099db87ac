-- ===== src/Memory/Cleanup/Sound.antt =====
-- memory/cleanup.py: the passes, on a sound store.
use wastech_orchestrator.Prelude.{
  ◌+◌, ◌==◌, Bool, ◌||◌, ltb, filter, length, any, is_some, String, Option, none, some, List, [],
  ◌∷◌, if◌then◌else◌, concat, ◌≡◌, refl, inl, inr, Bool-cases,
}
use wastech_orchestrator.Prelude.Dict.{get}
use wastech_orchestrator.Prelude.Json.{Fields, text}
use wastech_orchestrator.Memory.Lifecycle.{TrustLevel}
use wastech_orchestrator.Memory.Audit.{AuditAction, AuditContext, prune, merge, quarantine}
use wastech_orchestrator.Memory.Records.{LongTermKind, trust_value}
use wastech_orchestrator.Memory.Store.{
  MemoryStore, recent_path, entities_path, pending_path, long_term_path, read, ids, replace_rows,
}
use wastech_orchestrator.Memory.Store.Kept.{IsDurableRow}
use wastech_orchestrator.Memory.Funnel.Sound.{
  IsSound, IsPermitted, entities-apart, replace_rows-IsSound, anything_pending, anything_recent,
}
use wastech_orchestrator.Memory.Snapshots.{Snapshot, take_snapshot, tier_candidates, kinds}
use wastech_orchestrator.Memory.Cleanup.{CleanupJob, classify_entity, classify_lesson}
use wastech_orchestrator.Memory.Cleanup.Budget.{Budget, scan, allow_edits, can_act}
use wastech_orchestrator.Memory.Cleanup.Collapse.{
  collapse_by_memory_id, collapse_entities, collapse_duplicates,
}
use wastech_orchestrator.Memory.Cleanup.Collapsed.{
  collapse_entities-AreDurable, collapse_by_memory_id-AreDurable, collapse_duplicates-AreDurable,
}
use wastech_orchestrator.Memory.Cleanup.Distinct.{collapse_by_memory_id-AreDistinct}
use wastech_orchestrator.Memory.Cleanup.Subjects.{collapse_duplicates-AreDistinct}
use wastech_orchestrator.Memory.Cleanup.Verdicts.{
  reconcile_rows-All, AreDurable-All, All-AreDurable, IsLesson, lessons-All, All-lessons,
  classify_entity-Keeps, classify_lesson-Keeps,
}
use wastech_orchestrator.Memory.Cleanup.Passes.{
  Pass, drop_episodes, episode_expired, oldest_first, first, parse, expire_episodes,
  quarantine_rows, write_entities, reconcile_entities, write_lessons, reconcile_kind, merge_kind,
}
use wastech_orchestrator.Memory.Cleanup.Run.{
  each_kind, no_counts, start_budget, run_passes, run_once,
}
use wastech_orchestrator.Memory.Cleanup.Reconcile.{start_loop, reconcile_rows}

module _ (job : CleanupJob)
    (keeps_trust : (t : TrustLevel) → job.service.redact_text (trust_value t) ≡ trust_value t)
    (keeps_digest : (body : Fields)
      → job.service.redact_text (job.service.digest body) ≡ job.service.digest body)
    (keeps_empty : job.service.redact_text "" ≡ "")
    (keeps_id : (s : String)
      → job.service.redact_text (concat "ltm_" (job.service.id_digest s))
        ≡ concat "ltm_" (job.service.id_digest s)) where
  abbrev Holds : MemoryStore → Type 0
  Holds store = IsSound job.service store

  write-Holds :
      (store : MemoryStore) (path : String) (rows : List Fields) (affected_ids : List String)
      (action : AuditAction) (audit : AuditContext)
      → IsPermitted job.service path rows
      → Holds store
      → Holds (replace_rows job.service store path rows affected_ids action audit)
  write-Holds = replace_rows-IsSound job.service keeps_trust keeps_digest keeps_empty

  drop_episodes-Holds :
      (store : MemoryStore) (dropped : List Fields) (audit : AuditContext)
      → Holds store
      → Holds (drop_episodes job store dropped audit)
  unfolding drop_episodes
  drop_episodes-Holds store dropped audit sound =
      write-Holds store recent_path _ _ prune audit
        (anything_recent job.service keeps_trust keeps_digest keeps_empty _) sound

  expire_episodes-Holds :
      (store : MemoryStore) (b : Budget) (audit : AuditContext) (dry_run : Bool)
      → Holds store
      → Holds (expire_episodes job store b audit dry_run).store
  unfolding expire_episodes
  expire_episodes-Holds store b audit dry_run sound =
      let rows = read store recent_path in
      let expired =
        oldest_first
          (filter (episode_expired job (parse job (some (text audit.timestamp)))) rows) in
      let take = allow_edits (scan b (length rows)) (length expired) in
      elim (Bool-cases (length rows == 0 || take == 0)) [
        | inl e ↦ rw (expire_episodes, e) sound
        | inr e ↦ elim (Bool-cases dry_run) [
          | inl d ↦ rw (expire_episodes, e, d) sound
          | inr d ↦
              rw (expire_episodes, e, d)
                (drop_episodes-Holds store (first take expired) audit sound)
        ]
      ]

  quarantine_rows-Holds :
      (store : MemoryStore) (rows : List Fields) (audit : AuditContext)
      → Holds store
      → Holds (quarantine_rows job store rows audit)
  unfolding quarantine_rows
  quarantine_rows-Holds store [] audit sound = sound
  quarantine_rows-Holds store (row ∷ rows) audit sound =
      write-Holds store pending_path _ _ quarantine audit
        (anything_pending job.service keeps_trust keeps_digest keeps_empty _) sound

  reconcile_entities-Holds :
      (store : MemoryStore) (b : Budget) (audit : AuditContext) (dry_run : Bool)
      → Holds store
      → Holds (reconcile_entities job store b audit dry_run).store
  unfolding reconcile_entities write_entities
  reconcile_entities-Holds store b audit dry_run sound =
      let cards = read store entities_path in
      let l = reconcile_rows job.on_time (classify_entity job) (start_loop b) cards in
      let kept = All-AreDurable l.kept (
        reconcile_rows-All IsDurableRow job.on_time (classify_entity job)
          (classify_entity-Keeps job) (start_loop b) cards tt
          (AreDurable-All cards ((sound.kept entities_path).1 refl))) in
      let rows = collapse_entities l.kept in
      elim (Bool-cases (dry_run || l.remapped + l.quarantined == 0)) [
        | inl e ↦ rw (reconcile_entities, e) sound
        | inr e ↦
            rw (reconcile_entities, e)
              (quarantine_rows-Holds
                (replace_rows job.service store entities_path rows (ids rows) merge audit)
                l.newly_quarantined audit
                (write-Holds store entities_path rows (ids rows) merge audit
                  (
                    (λ kind p. absurd (entities-apart kind p)),
                    λ p. collapse_entities-AreDurable l.kept kept,
                  )
                  sound))
      ]

  reconcile_kind-Holds :
      (p : Pass) (kind : LongTermKind) (audit : AuditContext) (dry_run : Bool)
      → Holds p.store
      → Holds (reconcile_kind job p kind audit dry_run).store
  unfolding reconcile_kind write_lessons
  reconcile_kind-Holds p kind audit dry_run sound =
      let path = long_term_path kind in
      let lessons = read p.store path in
      let (are_durable, distinct) = (sound.kept path).0 kind refl in
      let redact_text = job.service.redact_text in
      let l = reconcile_rows job.on_time (classify_lesson job kind) (start_loop p.budget) lessons in
      let (durable, named) = All-lessons redact_text l.kept (
        reconcile_rows-All (IsLesson redact_text) job.on_time (classify_lesson job kind)
          (classify_lesson-Keeps job keeps_id kind) (start_loop p.budget) lessons tt
          (lessons-All redact_text lessons are_durable distinct)) in
      let rows = collapse_by_memory_id l.kept in
      let action = if l.remapped == 0 then quarantine else merge in
      let rows_durable = collapse_by_memory_id-AreDurable l.kept durable in
      let rows_distinct = collapse_by_memory_id-AreDistinct redact_text l.kept named in
      elim (Bool-cases (dry_run || l.remapped + l.quarantined == 0)) [
        | inl e ↦ rw (reconcile_kind, e) sound
        | inr e ↦
            rw (reconcile_kind, e)
              (quarantine_rows-Holds
                (replace_rows job.service p.store path rows (ids rows) action audit)
                l.newly_quarantined audit
                (write-Holds p.store path rows (ids rows) action audit
                  ((λ other q. (rows_durable, rows_distinct)), λ q. rows_durable) sound))
      ]

  merge_kind-Holds :
      (p : Pass) (kind : LongTermKind) (audit : AuditContext) (dry_run : Bool)
      → Holds p.store
      → Holds (merge_kind job p kind audit dry_run).store
  unfolding merge_kind
  merge_kind-Holds p kind audit dry_run sound =
      let path = long_term_path kind in
      let lessons = read p.store path in
      let (are_durable, distinct) = (sound.kept path).0 kind refl in
      let b = scan p.budget (length lessons) in
      let (rows, merges) = collapse_duplicates job.service lessons in
      let rows_durable = collapse_duplicates-AreDurable job.service lessons are_durable in
      let rows_distinct = collapse_duplicates-AreDistinct job.service lessons distinct in
      elim (Bool-cases (merges == 0 || ltb (allow_edits b merges) merges)) [
        | inl e ↦ rw (merge_kind, e) sound
        | inr e ↦ elim (Bool-cases dry_run) [
          | inl d ↦ rw (merge_kind, e, d) sound
          | inr d ↦
              rw (merge_kind, e, d)
                (write-Holds p.store path rows (ids rows) merge audit
                  ((λ other q. (rows_durable, rows_distinct)), λ q. rows_durable) sound)
        ]
      ]

  each_kind-Holds :
      (step : Pass → LongTermKind → AuditContext → Bool → Pass)
      → ((q : Pass) (kind : LongTermKind) (audit : AuditContext) (dry_run : Bool)
          → Holds q.store
          → Holds (step q kind audit dry_run).store)
      → (p : Pass) (ks : List LongTermKind) (audit : AuditContext) (dry_run : Bool) → Holds p.store
      → Holds (each_kind job step p ks audit dry_run).store
  unfolding each_kind
  each_kind-Holds step keeps p [] audit dry_run sound = sound
  each_kind-Holds step keeps p (kind ∷ ks) audit dry_run sound =
      let q : Pass = record {
        store = p.store;
        budget = (can_act job.on_time p.budget).1;
        remapped = p.remapped;
        others = p.others;
      } in
      elim (Bool-cases (can_act job.on_time p.budget).0) [
        | inl e ↦
            rw (each_kind, e)
              (each_kind-Holds step keeps (step q kind audit dry_run) ks audit dry_run
                (keeps q kind audit dry_run sound))
        | inr e ↦ rw (each_kind, e) sound
      ]

  run_passes-Holds :
      (store : MemoryStore) (audit : AuditContext) (full dry_run : Bool)
      (snapshot : Option Snapshot)
      → Holds store
      → Holds (run_passes job store audit full dry_run snapshot).0
  unfolding run_passes
  run_passes-Holds store audit full dry_run snapshot sound =
      let first = expire_episodes job store (start_budget job full) audit dry_run in
      let second = reconcile_entities job first.store first.budget audit dry_run in
      let lessons = no_counts job second in
      let third = each_kind job (reconcile_kind job) lessons kinds audit dry_run in
      each_kind-Holds (merge_kind job) merge_kind-Holds (no_counts job third) kinds audit dry_run (
        each_kind-Holds (reconcile_kind job) reconcile_kind-Holds lessons kinds audit dry_run (
          reconcile_entities-Holds first.store first.budget audit dry_run
            (expire_episodes-Holds store (start_budget job full) audit dry_run sound)))

  -- Where redaction leaves the names of the trust levels, hashes, identifiers and the empty text alone, a
  -- maintenance pass keeps a sound store sound.
  pub run_once-IsSound :
      (store : MemoryStore) (audit : AuditContext) (full dry_run : Bool)
      → IsSound job.service store
      → IsSound job.service (run_once job store audit full dry_run).0
  unfolding run_once
  run_once-IsSound store audit full dry_run sound =
      let snapshot = if dry_run then none else some (take_snapshot store.files tier_candidates) in
      elim (Bool-cases (any (λ path. is_some (get store.files path)) tier_candidates)) [
        | inl e ↦ rw (run_once, e) (run_passes-Holds store audit full dry_run snapshot sound)
        | inr e ↦ rw (run_once, e) sound
      ]
