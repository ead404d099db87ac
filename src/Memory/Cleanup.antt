-- ===== src/Memory/Cleanup.antt =====
-- memory/cleanup.py: the bounded maintenance pass. The index over the live repository and the clock are
-- parameters; a cap that is negative stops what a cap of 0 stops.
pub mod Collapse
pub mod Budget
pub mod Reconcile
pub mod Passes
pub mod Run
pub mod Collapsed
pub mod Distinct
pub mod Subjects
pub mod Verdicts
pub mod Sound
pub mod Spent
pub mod Dropped
pub mod Recent
pub mod Bounded
pub mod Dry
use wastech_orchestrator.Prelude.{
  ℕ, Bool, true, false, String, Option, none, some, List, [], ◌∷◌, if◌then◌else◌, str_eq,
  or_default,
}
use wastech_orchestrator.Prelude.Int.{ℤ}
use wastech_orchestrator.Prelude.Json.{
  Value, text, array, object, Fields, get_field, put_field, text_items,
}
use wastech_orchestrator.Memory.Records.{LongTermKind}
use wastech_orchestrator.Memory.Store.{MemoryService}
use wastech_orchestrator.Memory.Identity.{derive_long_term_id}
use wastech_orchestrator.Memory.Ingest.{as_str_list, texts_in}

-- The index, the configuration, and whether the n-th reading of the clock is before the pass's limit.
pub record CleanupJob : Type 0 where
  pub service : MemoryService
  pub path_exists : String → Bool
  pub find_by_basename : String → List String
  pub short_term_ttl_days : ℕ
  pub cleanup_max_scanned : ℕ
  pub cleanup_max_edits : ℕ
  pub on_time : ℕ → Bool

-- What becomes of a row: it is fresh, or a remapped copy takes its place, or a copy is quarantined.
pub data Verdict : Type 0 where
  fresh : Verdict
  remap : Fields → Verdict
  quarantined : Fields → Verdict

abbrev text_or : Option Value → String → String
text_or (some (text s)) default = if str_eq s "" then default else s
text_or _ default = default

-- str(row.get("status") or "active") == "active"
unfoldable pub record_active : Fields → Bool
unfolding get_field
record_active row = str_eq (text_or (get_field row "status") "active") "active"

abbrev first_of : List String → String
first_of [] = ""
first_of (p ∷ paths) = p

module _ (job : CleanupJob) where
  -- The paths where they are now, and whether one has moved; none where one is unresolved.
  unfoldable pub remap_paths : List String → Option (List String × Bool)
  remap_paths [] = some ([], false)
  remap_paths (path ∷ paths) = elim (remap_paths paths) [
    | none ↦ none
    | some (rest, moved) ↦
        if job.path_exists path
        then some (path ∷ rest, moved)
        else elim (job.find_by_basename path) [
          | [] ↦ none
          | c ∷ [] ↦ some (c ∷ rest, true)
          | _ ↦ none
        ]
  ]

  unfoldable pub classify_entity : Fields → Verdict
  unfolding get_field put_field texts_in text_items remap_paths
  classify_entity row =
      let paths = as_str_list (get_field row "paths") in
      elim (remap_paths paths) [
        | none ↦ quarantined (put_field row "status" (text "quarantined"))
        | some (now, moved) ↦
            if moved
            then remap (
                put_field (put_field row "paths" (array (text_items now))) "canonical_name"
                  (text (first_of now)))
            else fresh
      ]

  unfoldable pub moved_lesson : LongTermKind → Fields → Fields → List String → Fields
  unfolding get_field put_field text_items derive_long_term_id
  moved_lesson kind row scope now =
      let subject = text_or (get_field row "subject") "" in
      put_field (put_field row "scope" (object (put_field scope "paths" (array (text_items now)))))
        "memory_id" (text (derive_long_term_id job.service kind subject now))

  unfoldable pub classify_scope : LongTermKind → Fields → Option Value → Verdict
  unfolding get_field put_field texts_in remap_paths moved_lesson
  classify_scope kind row (some (object scope)) =
      elim (remap_paths (as_str_list (get_field scope "paths"))) [
        | none ↦ quarantined (put_field row "status" (text "quarantined"))
        | some (now, moved) ↦ if moved then remap (moved_lesson kind row scope now) else fresh
      ]
  classify_scope kind row _ = fresh

  unfoldable pub classify_lesson : LongTermKind → Fields → Verdict
  unfolding get_field classify_scope
  classify_lesson kind row = classify_scope kind row (get_field row "scope")
