-- ===== src/Memory/Cleanup/Passes.antt =====
-- memory/cleanup.py: the passes of `run_once`.
use wastech_orchestrator.Prelude.{
  ℕ, zero, suc, ◌+◌, ◌*◌, ◌==◌, Bool, false, not, ◌||◌, ltb, String, Option, none, some, List, [],
  ◌∷◌, ◌++◌, filter, map, length, contains, if◌then◌else◌,
}
use wastech_orchestrator.Prelude.Int.{ℤ, pos, lt_int, le_int, ◌-ℤ◌}
use wastech_orchestrator.Prelude.Chars.{codes}
use wastech_orchestrator.Prelude.Sorted.{precedes}
use wastech_orchestrator.Prelude.Json.{Value, text, Fields, get_field}
use wastech_orchestrator.Memory.Audit.{AuditContext, prune, merge, quarantine}
use wastech_orchestrator.Memory.Records.{LongTermKind}
use wastech_orchestrator.Memory.Store.{
  MemoryStore, recent_path, entities_path, pending_path, long_term_path, read, ids, replace_rows,
  nonempty_text,
}
use wastech_orchestrator.Memory.Cleanup.{CleanupJob, classify_entity, classify_lesson}
use wastech_orchestrator.Memory.Cleanup.Budget.{Budget, scan, spend_edits, allow_edits}
use wastech_orchestrator.Memory.Cleanup.Collapse.{
  collapse_by_memory_id, collapse_entities, collapse_duplicates,
}
use wastech_orchestrator.Memory.Cleanup.Reconcile.{Loop, reconcile_rows, start_loop}

-- What a pass leaves: the store, the budget, and its counts of remapped and of other rows.
pub record Pass : Type 0 where
  pub store : MemoryStore
  pub budget : Budget
  pub remapped : ℕ
  pub others : ℕ

abbrev any_text : Option Value → String
any_text (some (text s)) = s
any_text _ = "None"

-- str(row.get("id"))
abbrev pub episode_id : Fields → String
unfolding get_field
episode_id row = any_text (get_field row "id")

abbrev created_at : Fields → String
unfolding get_field
created_at row = elim (nonempty_text (get_field row "created_at")) [ none ↦ "" | some s ↦ s ]

-- Python's stable sort by `created_at`.
unfoldable pub insert_episode : Fields → List Fields → List Fields
unfolding precedes created_at
insert_episode row [] = row ∷ []
insert_episode row (r ∷ rows) =
    let rest = insert_episode row rows in
    if precedes (codes (created_at r)) (codes (created_at row)) then r ∷ rest else row ∷ r ∷ rows

unfoldable pub oldest_first : List Fields → List Fields
unfolding insert_episode
oldest_first [] = []
oldest_first (row ∷ rows) = insert_episode row (oldest_first rows)

-- rows[:n]
abbrev pub first : ℕ → List Fields → List Fields
first zero rows = []
first (suc n) [] = []
first (suc n) (row ∷ rows) = row ∷ first n rows

module _ (job : CleanupJob) where
  -- _parse
  abbrev pub parse : Option Value → Option ℤ
  parse value = elim (nonempty_text value) [ none ↦ none | some s ↦ job.service.instant s ]

  abbrev created_before : Option ℤ → ℤ → Bool
  created_before none cutoff = false
  created_before (some created) cutoff = lt_int created cutoff

  -- _episode_expired; where there is no `now` there is no `cutoff`.
  unfoldable pub episode_expired : Option ℤ → Fields → Bool
  unfolding get_field
  episode_expired none row = false
  episode_expired (some now) row = elim (parse (get_field row "expires_at")) [
    | some explicit ↦ le_int explicit now
    | none ↦
        created_before (parse (get_field row "created_at"))
          (now -ℤ pos (job.short_term_ttl_days * 86400000000))
  ]

  unfoldable pub drop_episodes : MemoryStore → List Fields → AuditContext → MemoryStore
  unfolding read replace_rows ids episode_id
  drop_episodes store dropped audit =
      let gone = map episode_id dropped in
      let kept = filter (λ row. not (contains gone (episode_id row))) (read store recent_path) in
      replace_rows job.service store recent_path kept (ids kept) prune audit

  unfoldable pub expire_episodes : MemoryStore → Budget → AuditContext → Bool → Pass
  unfolding read episode_expired oldest_first drop_episodes
  expire_episodes store budget audit dry_run =
      let rows = read store recent_path in
      let now = parse (some (text audit.timestamp)) in
      let expired = oldest_first (filter (episode_expired now) rows) in
      let scanned = scan budget (length rows) in
      let take = allow_edits scanned (length expired) in
      if length rows == 0 || take == 0
      then record { store = store; budget = scanned; remapped = 0; others = 0 }
      else record {
        store = if dry_run then store else drop_episodes store (first take expired) audit;
        budget = spend_edits scanned take;
        remapped = 0;
        others = take;
      }

  -- The rows that a loop quarantined join the pending ones.
  unfoldable pub quarantine_rows : MemoryStore → List Fields → AuditContext → MemoryStore
  unfolding read replace_rows ids
  quarantine_rows store [] audit = store
  quarantine_rows store (row ∷ rows) audit =
      let pending = read store pending_path ++ (row ∷ rows) in
      replace_rows job.service store pending_path pending (ids pending) quarantine audit

  unfoldable pub write_entities : MemoryStore → Loop → AuditContext → MemoryStore
  unfolding replace_rows ids collapse_entities quarantine_rows
  write_entities store l audit =
      let rows = collapse_entities l.kept in
      quarantine_rows (replace_rows job.service store entities_path rows (ids rows) merge audit)
        l.newly_quarantined audit

  unfoldable pub reconcile_entities : MemoryStore → Budget → AuditContext → Bool → Pass
  unfolding read reconcile_rows classify_entity write_entities
  reconcile_entities store budget audit dry_run =
      let l =
        reconcile_rows job.on_time (classify_entity job) (start_loop budget)
          (read store entities_path) in
      record {
        store =
            if dry_run || l.remapped + l.quarantined == 0
            then store
            else write_entities store l audit;
        budget = l.budget;
        remapped = l.remapped;
        others = l.quarantined;
      }

  unfoldable pub write_lessons : MemoryStore → LongTermKind → Loop → AuditContext → MemoryStore
  unfolding replace_rows ids collapse_by_memory_id quarantine_rows
  write_lessons store kind l audit =
      let rows = collapse_by_memory_id l.kept in
      let action = if l.remapped == 0 then quarantine else merge in
      quarantine_rows
        (replace_rows job.service store (long_term_path kind) rows (ids rows) action audit)
        l.newly_quarantined audit

  -- One kind of the loop of `_reconcile_lessons`, after its test.
  unfoldable pub reconcile_kind : Pass → LongTermKind → AuditContext → Bool → Pass
  unfolding read reconcile_rows classify_lesson write_lessons
  reconcile_kind p kind audit dry_run =
      let l =
        reconcile_rows job.on_time (classify_lesson job kind) (start_loop p.budget)
          (read p.store (long_term_path kind)) in
      record {
        store =
            if dry_run || l.remapped + l.quarantined == 0
            then p.store
            else write_lessons p.store kind l audit;
        budget = l.budget;
        remapped = p.remapped + l.remapped;
        others = p.others + l.quarantined;
      }

  -- One kind of `_merge_long_term_duplicates`, after its test.
  unfoldable pub merge_kind : Pass → LongTermKind → AuditContext → Bool → Pass
  unfolding read collapse_duplicates replace_rows ids
  merge_kind p kind audit dry_run =
      let rows = read p.store (long_term_path kind) in
      let budget = scan p.budget (length rows) in
      let (collapsed, merges) = collapse_duplicates job.service rows in
      if merges == 0 || ltb (allow_edits budget merges) merges
      then record { store = p.store; budget = budget; remapped = p.remapped; others = p.others }
      else record {
        store =
            if dry_run
            then p.store
            else replace_rows job.service p.store (long_term_path kind) collapsed (ids collapsed)
                merge audit;
        budget = spend_edits budget merges;
        remapped = p.remapped;
        others = p.others + merges;
      }
