-- ===== src/Memory/Cleanup/Recent.antt =====
-- memory/cleanup.py: the file of the recent episodes, over the passes.
use wastech_orchestrator.Prelude.{
  ℕ, ◌+◌, ◌≤◌, ◌==◌, Bool, false, ◌||◌, ltb, filter, map, map-In, length, In, String, List, [], ◌∷◌,
  ◌++◌, if◌then◌else◌, str_eq, some, ◌≡◌, refl, ◌∙◌, ◌⊎◌, inl, inr, arith, Bool-cases,
}
use wastech_orchestrator.Prelude.Json.{text, Fields}
use wastech_orchestrator.Memory.Audit.{AuditAction, AuditContext, prune, merge, quarantine}
use wastech_orchestrator.Memory.Records.{LongTermKind, semantic, procedural, reviewer, failure}
use wastech_orchestrator.Memory.Store.{
  MemoryService, MemoryStore, recent_path, entities_path, pending_path, long_term_path, read, ids,
  redact, replace_rows,
}
use wastech_orchestrator.Memory.Store.Writes.{read-save}
use wastech_orchestrator.Memory.Cleanup.{CleanupJob, classify_entity, classify_lesson}
use wastech_orchestrator.Memory.Cleanup.Budget.{Budget, scan, allow_edits, can_act}
use wastech_orchestrator.Memory.Cleanup.Collapse.{
  collapse_by_memory_id, collapse_entities, collapse_duplicates,
}
use wastech_orchestrator.Memory.Cleanup.Reconcile.{start_loop, reconcile_rows}
use wastech_orchestrator.Memory.Cleanup.Passes.{
  Pass, drop_episodes, episode_expired, oldest_first, first, parse, expire_episodes,
  quarantine_rows, write_entities, reconcile_entities, write_lessons, reconcile_kind, merge_kind,
}
use wastech_orchestrator.Memory.Cleanup.Run.{each_kind}
use wastech_orchestrator.Memory.Cleanup.Dropped.{
  AreApart, kept_of, length-kept, In-kept, length-first, In-taken,
}

abbrev pub recent : MemoryStore → List Fields
recent store = read store recent_path

module _ (service : MemoryService) where
  read-replace_rows :
      (store : MemoryStore) (path other : String) (rows : List Fields) (affected_ids : List String)
      (action : AuditAction) (audit : AuditContext)
      → read (replace_rows service store path rows affected_ids action audit) other
        ≡ (if str_eq path other then map (redact service) rows else read store other)
  unfolding replace_rows
  read-replace_rows store path other rows affected_ids action audit =
      read-save service store path other (map (redact service) rows) action affected_ids audit

  -- A write of another file.
  recent-replace_rows :
      (store : MemoryStore) (path : String) (rows : List Fields) (action : AuditAction)
      (audit : AuditContext)
      → str_eq path recent_path ≡ false
      → recent (replace_rows service store path rows (ids rows) action audit) ≡ recent store
  recent-replace_rows store path rows action audit h =
      cc (read-replace_rows store path recent_path rows (ids rows) action audit, h)

  length-redact : (rows : List Fields) → length (map (redact service) rows) ≡ length rows
  length-redact [] = refl
  length-redact (row ∷ rows) = ground (arith, length-redact rows)

long_term_path-ne-recent : (kind : LongTermKind) → str_eq (long_term_path kind) recent_path ≡ false
long_term_path-ne-recent semantic = refl
long_term_path-ne-recent procedural = refl
long_term_path-ne-recent reviewer = refl
long_term_path-ne-recent failure = refl

module _ (job : CleanupJob) where
  -- What is left of the recent episodes: all but as many as are counted, and each that has not expired,
  -- as it is or redacted.
  abbrev pub Keeps : (now : AuditContext) (rows after : List Fields) → ℕ → Type 0
  Keeps audit rows after expired =
      (length rows ≤ length after + expired)
      × ((row : Fields)
          → In row rows
          → episode_expired job (parse job (some (text audit.timestamp))) row ≡ false
          → In row after ⊎ In (redact job.service row) after)

  pub Keeps-refl : (audit : AuditContext) (rows : List Fields) → Keeps audit rows rows 0
  Keeps-refl audit rows = (omega arith, λ row i h. inl i)

  Keeps-more : (audit : AuditContext) (rows : List Fields) (n : ℕ) → Keeps audit rows rows n
  Keeps-more audit rows n = (omega arith, λ row i h. inl i)

  recent-drop_episodes :
      (store : MemoryStore) (audit : AuditContext) (n : ℕ)
      → AreApart (recent store)
      → (let chosen = episode_expired job (parse job (some (text audit.timestamp))) in
          Keeps audit
            (recent store)
            (recent (
              drop_episodes job store
                (first n (oldest_first (filter chosen (recent store))))
                audit))
            n)
  unfolding drop_episodes
  recent-drop_episodes store audit n apart =
      let chosen = episode_expired job (parse job (some (text audit.timestamp))) in
      let dropped = first n (oldest_first (filter chosen (recent store))) in
      let kept = kept_of dropped (recent store) in
      rw (read-replace_rows job.service store recent_path recent_path kept (ids kept) prune audit) (
        omega (
          arith,
          length-redact job.service kept,
          length-kept dropped (recent store) apart,
          length-first n (oldest_first (filter chosen (recent store))),
        ),
        λ row i fresh. inr (
            map-In (redact job.service) row kept (
              In-kept dropped (recent store) row apart
                (λ r j. (In-taken chosen n (recent store) r j).0) i
                (λ j.
                  let gone = (In-taken chosen n (recent store) row j).1 in
                  absurd (ground (arith, gone, fresh))))),
      )

  pub expire_episodes-Keeps :
      (store : MemoryStore) (b : Budget) (audit : AuditContext) (dry_run : Bool)
      → AreApart (recent store)
      → (let p = expire_episodes job store b audit dry_run in
          Keeps audit (recent store) (recent p.store) p.others)
  unfolding expire_episodes
  expire_episodes-Keeps store b audit dry_run apart =
      let rows = recent store in
      let expired =
        oldest_first
          (filter (episode_expired job (parse job (some (text audit.timestamp)))) rows) in
      let take = allow_edits (scan b (length rows)) (length expired) in
      elim (Bool-cases (length rows == 0 || take == 0)) [
        | inl e ↦ rw (expire_episodes, e) (Keeps-refl audit rows)
        | inr e ↦ elim (Bool-cases dry_run) [
          | inl d ↦ rw (expire_episodes, e, d) (Keeps-more audit rows take)
          | inr d ↦ rw (expire_episodes, e, d) (recent-drop_episodes store audit take apart)
        ]
      ]

  -- The passes after the expiry write other files.
  recent-quarantine_rows :
      (store : MemoryStore) (rows : List Fields) (audit : AuditContext)
      → recent (quarantine_rows job store rows audit) ≡ recent store
  unfolding quarantine_rows
  recent-quarantine_rows store [] audit = refl
  recent-quarantine_rows store (row ∷ rows) audit =
      recent-replace_rows job.service store pending_path (read store pending_path ++ (row ∷ rows))
        quarantine audit refl

  pub recent-reconcile_entities :
      (store : MemoryStore) (b : Budget) (audit : AuditContext) (dry_run : Bool)
      → recent (reconcile_entities job store b audit dry_run).store ≡ recent store
  unfolding reconcile_entities write_entities
  recent-reconcile_entities store b audit dry_run =
      let l =
        reconcile_rows job.on_time (classify_entity job) (start_loop b)
          (read store entities_path) in
      elim (Bool-cases (dry_run || l.remapped + l.quarantined == 0)) [
        | inl e ↦ rw (reconcile_entities, e) refl
        | inr e ↦
            rw (reconcile_entities, e)
              (recent-quarantine_rows _ l.newly_quarantined audit
                ∙ recent-replace_rows job.service store entities_path (collapse_entities l.kept)
                    merge audit refl)
      ]

  pub recent-reconcile_kind :
      (p : Pass) (kind : LongTermKind) (audit : AuditContext) (dry_run : Bool)
      → recent (reconcile_kind job p kind audit dry_run).store ≡ recent p.store
  unfolding reconcile_kind write_lessons
  recent-reconcile_kind p kind audit dry_run =
      let l =
        reconcile_rows job.on_time (classify_lesson job kind) (start_loop p.budget)
          (read p.store (long_term_path kind)) in
      elim (Bool-cases (dry_run || l.remapped + l.quarantined == 0)) [
        | inl e ↦ rw (reconcile_kind, e) refl
        | inr e ↦
            rw (reconcile_kind, e)
              (recent-quarantine_rows _ l.newly_quarantined audit
                ∙ recent-replace_rows job.service p.store (long_term_path kind)
                    (collapse_by_memory_id l.kept) (if l.remapped == 0 then quarantine else merge)
                    audit (long_term_path-ne-recent kind))
      ]

  pub recent-merge_kind :
      (p : Pass) (kind : LongTermKind) (audit : AuditContext) (dry_run : Bool)
      → recent (merge_kind job p kind audit dry_run).store ≡ recent p.store
  unfolding merge_kind
  recent-merge_kind p kind audit dry_run =
      let b = scan p.budget (length (read p.store (long_term_path kind))) in
      let merges = (collapse_duplicates job.service (read p.store (long_term_path kind))).1 in
      elim (Bool-cases (merges == 0 || ltb (allow_edits b merges) merges)) [
        | inl e ↦ rw (merge_kind, e) refl
        | inr e ↦ elim (Bool-cases dry_run) [
          | inl d ↦ rw (merge_kind, e, d) refl
          | inr d ↦
              rw (merge_kind, e, d)
                (recent-replace_rows job.service p.store (long_term_path kind)
                  (collapse_duplicates job.service (read p.store (long_term_path kind))).0 merge
                  audit (long_term_path-ne-recent kind))
        ]
      ]

  pub recent-each_kind :
      (step : Pass → LongTermKind → AuditContext → Bool → Pass)
      → ((q : Pass) (kind : LongTermKind) (audit : AuditContext) (dry_run : Bool)
          → recent (step q kind audit dry_run).store ≡ recent q.store)
      → (p : Pass) (ks : List LongTermKind) (audit : AuditContext) (dry_run : Bool)
      → recent (each_kind job step p ks audit dry_run).store ≡ recent p.store
  unfolding each_kind
  recent-each_kind step same p [] audit dry_run = refl
  recent-each_kind step same p (kind ∷ ks) audit dry_run =
      let q : Pass = record {
        store = p.store;
        budget = (can_act job.on_time p.budget).1;
        remapped = p.remapped;
        others = p.others;
      } in
      elim (Bool-cases (can_act job.on_time p.budget).0) [
        | inl e ↦
            rw (each_kind, e)
              (recent-each_kind step same (step q kind audit dry_run) ks audit dry_run
                ∙ same q kind audit dry_run)
        | inr e ↦ rw (each_kind, e) refl
      ]
