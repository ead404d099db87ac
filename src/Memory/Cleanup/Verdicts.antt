-- ===== src/Memory/Cleanup/Verdicts.antt =====
-- memory/cleanup.py: what reconciling keeps of the rows.
use wastech_orchestrator.Prelude.{
  ℕ, Bool, not, ◌||◌, String, Option, some, List, [], ◌∷◌, ◌++◌, concat, ◌≡◌, ◌∙◌, inl, inr,
  Bool-cases, Option-cases,
}
use wastech_orchestrator.Prelude.Json.{
  Value, object, Fields, get_field, put_field, get_field-put_field,
}
use wastech_orchestrator.Memory.Records.{LongTermKind}
use wastech_orchestrator.Memory.Store.Kept.{IsDurableRow, AreDurable}
use wastech_orchestrator.Memory.Store.Names.{IsName, AreDistinct}
use wastech_orchestrator.Memory.Identity.{derive_long_term_id, prefixed_nonempty}
use wastech_orchestrator.Memory.Ingest.{as_str_list}
use wastech_orchestrator.Memory.Cleanup.{
  CleanupJob, Verdict, fresh, remap, quarantined, record_active, remap_paths, moved_lesson,
  classify_entity, classify_scope, classify_lesson,
}
use wastech_orchestrator.Memory.Cleanup.Budget.{Budget, can_act}
use wastech_orchestrator.Memory.Cleanup.Collapsed.{HasId, AreNamed}
use wastech_orchestrator.Memory.Cleanup.Reconcile.{Loop, settle, reconcile_row, reconcile_rows}

abbrev pub All : (Fields → Type 0) → List Fields → Type 0
All P [] = Unit
All P (row ∷ rows) = P row × All P rows

All-append :
    (P : Fields → Type 0) (rows : List Fields) (row : Fields)
    → All P rows
    → P row
    → All P (rows ++ (row ∷ []))
All-append P [] row h p = (p, tt)
All-append P (r ∷ rows) row h p = (h.0, All-append P rows row h.1 p)

-- A row that takes another's place has `P`.
abbrev pub Keeps : (Fields → Type 0) → Verdict → Type 0
Keeps P (remap payload) = P payload
Keeps P _ = Unit

module _ (P : Fields → Type 0) (on_time : ℕ → Bool) (classify : Fields → Verdict)
    (keeps : (row : Fields) → P row → Keeps P (classify row)) where
  settle-All :
      (l : Loop) (b : Budget) (row : Fields) (verdict : Verdict)
      → All P l.kept
      → P row
      → Keeps P verdict
      → All P (settle l b row verdict).kept
  unfolding settle
  settle-All l b row fresh h p k = All-append P l.kept row h p
  settle-All l b row (remap payload) h p k = All-append P l.kept payload h k
  settle-All l b row (quarantined payload) h p k = h

  reconcile_row-All :
      (l : Loop) (row : Fields)
      → All P l.kept
      → P row
      → All P (reconcile_row on_time classify l row).kept
  unfolding reconcile_row
  reconcile_row-All l row h p =
      let (may_act, b) = can_act on_time l.budget in
      elim (Bool-cases (not may_act || not (record_active row))) [
        | inl e ↦ rw (reconcile_row, e) (All-append P l.kept row h p)
        | inr e ↦ rw (reconcile_row, e) (settle-All l b row (classify row) h p (keeps row p))
      ]

  pub reconcile_rows-All :
      (l : Loop) (rows : List Fields)
      → All P l.kept
      → All P rows
      → All P (reconcile_rows on_time classify l rows).kept
  unfolding reconcile_rows
  reconcile_rows-All l [] h k = h
  reconcile_rows-All l (row ∷ rows) h (p, k) =
      reconcile_rows-All (reconcile_row on_time classify l row) rows (reconcile_row-All l row h p) k

pub AreDurable-All : (rows : List Fields) → AreDurable rows → All IsDurableRow rows
AreDurable-All [] h = tt
AreDurable-All (row ∷ rows) h = (h.0, AreDurable-All rows h.1)

pub All-AreDurable : (rows : List Fields) → All IsDurableRow rows → AreDurable rows
All-AreDurable [] h = tt
All-AreDurable (row ∷ rows) h = (h.0, All-AreDurable rows h.1)

-- A lesson has a durable trust and an identifier.
abbrev pub IsLesson : (String → String) → Fields → Type 0
IsLesson redact_text row = IsDurableRow row × ((id : String) × HasId row id × IsName redact_text id)

module _ (redact_text : String → String) where
  pub lessons-All :
      (rows : List Fields)
      → AreDurable rows
      → AreDistinct redact_text rows
      → All (IsLesson redact_text) rows
  lessons-All [] h k = tt
  lessons-All (row ∷ rows) h ((id, has, name, once), k) =
      ((h.0, (id, has, name)), lessons-All rows h.1 k)

  pub All-lessons :
      (rows : List Fields)
      → All (IsLesson redact_text) rows
      → AreDurable rows × AreNamed redact_text rows
  All-lessons [] h = (tt, tt)
  All-lessons (row ∷ rows) ((durable, named), h) =
      let (are_durable, are_named) = All-lessons rows h in
      ((durable, are_durable), (named, are_named))

module _ (job : CleanupJob) where
  pub classify_entity-Keeps :
      (row : Fields) → IsDurableRow row → Keeps IsDurableRow (classify_entity job row)
  unfolding classify_entity
  classify_entity-Keeps row (trust, durable, e) =
      elim (Option-cases (remap_paths job (as_str_list (get_field row "paths")))) [
        | inl n ↦ rw (classify_entity, n) tt
        | inr ((now, moved), s) ↦ elim (Bool-cases moved) [
          | inl m ↦
              rw (classify_entity, s, m)
                (
                  trust,
                  durable,
                  get_field-put_field (put_field row "paths" _) "canonical_name" "trust_level" _
                      ∙ get_field-put_field row "paths" "trust_level" _
                      ∙ e,
                )
          | inr m ↦ rw (classify_entity, s, m) tt
        ]
      ]

  module _
      (keeps_id : (s : String)
        → job.service.redact_text (concat "ltm_" (job.service.id_digest s))
          ≡ concat "ltm_" (job.service.id_digest s)) where
    moved_lesson-IsLesson :
        (kind : LongTermKind) (row scope : Fields) (now : List String)
        → IsLesson job.service.redact_text row
        → IsLesson job.service.redact_text (moved_lesson job kind row scope now)
    unfolding moved_lesson derive_long_term_id
    moved_lesson-IsLesson kind row scope now ((trust, durable, e), _) = (
      (
        trust,
        durable,
        get_field-put_field (put_field row "scope" _) "memory_id" "trust_level" _
            ∙ get_field-put_field row "scope" "trust_level" _
            ∙ e,
      ),
      (
        _,
        get_field-put_field (put_field row "scope" _) "memory_id" "memory_id" _,
        (keeps_id _, prefixed_nonempty _),
      ),
    )

    classify_scope-Keeps :
        (kind : LongTermKind) (row : Fields) (scope : Option Value)
        → IsLesson job.service.redact_text row
        → Keeps (IsLesson job.service.redact_text) (classify_scope job kind row scope)
    unfolding classify_scope
    classify_scope-Keeps kind row (some (object scope)) h =
        elim (Option-cases (remap_paths job (as_str_list (get_field scope "paths")))) [
          | inl n ↦ rw (classify_scope, n) tt
          | inr ((now, moved), s) ↦ elim (Bool-cases moved) [
            | inl m ↦ rw (classify_scope, s, m) (moved_lesson-IsLesson kind row scope now h)
            | inr m ↦ rw (classify_scope, s, m) tt
          ]
        ]
    classify_scope-Keeps kind row _ h = tt

    pub classify_lesson-Keeps :
        (kind : LongTermKind) (row : Fields)
        → IsLesson job.service.redact_text row
        → Keeps (IsLesson job.service.redact_text) (classify_lesson job kind row)
    unfolding classify_lesson
    classify_lesson-Keeps kind row h = classify_scope-Keeps kind row (get_field row "scope") h
