-- ===== src/Memory/Cleanup/Subjects.antt =====
-- memory/cleanup.py: collapsing by subject, and the identifiers of lessons.
use wastech_orchestrator.Prelude.{
  append_empty, ℕ, suc, false, String, none, some, List, [], ◌∷◌, ◌++◌, str_eq, some_inj, ◌≡◌, refl,
  sym, ap, ◌∙◌, subst, inl, inr, arith, Bool-cases, Option-cases,
}
use wastech_orchestrator.Prelude.Dict.{Dict, get, put}
use wastech_orchestrator.Prelude.Json.{Fields, get_field}
use wastech_orchestrator.Memory.Audit.{is_text}
use wastech_orchestrator.Memory.Store.{MemoryService, find_row}
use wastech_orchestrator.Memory.Store.Names.{AreDistinct, find_row-none, find_row-later}
use wastech_orchestrator.Memory.Cleanup.Collapse.{
  absorb, values, subject_key, collapse_subjects, collapse_duplicates,
}
use wastech_orchestrator.Memory.Cleanup.Collapsed.{absorb-memory_id}

module _ (redact_text : String → String) where
  find_row-remove :
      (rows later : List Fields) (row : Fields) (id : String)
      → find_row (rows ++ (row ∷ later)) "memory_id" id ≡ none
      → find_row (rows ++ later) "memory_id" id ≡ none
  find_row-remove [] later row id e = (find_row-none row later "memory_id" id e).1
  find_row-remove (r ∷ rows) later row id e =
      let (other, rest) = find_row-none r (rows ++ (row ∷ later)) "memory_id" id e in
      find_row-later r (rows ++ later) "memory_id" id other (find_row-remove rows later row id rest)

  AreDistinct-remove :
      (rows later : List Fields) (row : Fields)
      → AreDistinct redact_text (rows ++ (row ∷ later))
      → AreDistinct redact_text (rows ++ later)
  AreDistinct-remove [] later row h = h.1
  AreDistinct-remove (r ∷ rows) later row ((id, has, name, once), h) =
      ((id, has, name, find_row-remove rows later row id once), AreDistinct-remove rows later row h)

  -- The row under the key gives way to one with the same identifier.
  find_row-put :
      (d : Dict Fields) (key : String) (keeper row : Fields) (later : List Fields) (id : String)
      → get d key ≡ some keeper
      → get_field row "memory_id" ≡ get_field keeper "memory_id"
      → find_row (values d ++ later) "memory_id" id ≡ none
      → find_row (values (put d key row) ++ later) "memory_id" id ≡ none
  unfolding get put values
  find_row-put [] key keeper row later id g same e = absurd (ground (arith, g))
  find_row-put ((k, r) ∷ d) key keeper row later id g same e =
      let (other, rest) = find_row-none r (values d ++ later) "memory_id" id e in
      elim (Bool-cases (str_eq k key)) [
        | inl t ↦
            let here : r ≡ keeper = some_inj (rw (get, t) at g) in
            let alike : is_text (get_field row "memory_id") id ≡ false =
              ap (λ v. is_text v id) (same ∙ ap (λ x. get_field x "memory_id") (sym here))
              ∙ other in
            rw (put, t) (find_row-later row (values d ++ later) "memory_id" id alike rest)
        | inr t ↦
            rw (put, t)
              (find_row-later r (values (put d key row) ++ later) "memory_id" id other
                (find_row-put d key keeper row later id (rw (get, t) at g) same rest))
      ]

  AreDistinct-put :
      (d : Dict Fields) (key : String) (keeper row : Fields) (later : List Fields)
      → get d key ≡ some keeper
      → get_field row "memory_id" ≡ get_field keeper "memory_id"
      → AreDistinct redact_text (values d ++ later)
      → AreDistinct redact_text (values (put d key row) ++ later)
  unfolding get put values
  AreDistinct-put [] key keeper row later g same h = absurd (ground (arith, g))
  AreDistinct-put ((k, r) ∷ d) key keeper row later g same ((id, has, name, once), h) =
      elim (Bool-cases (str_eq k key)) [
        | inl t ↦
            let here : r ≡ keeper = some_inj (rw (get, t) at g) in
            rw (put, t)
              ((id, same ∙ ap (λ x. get_field x "memory_id") (sym here) ∙ has, name, once), h)
        | inr t ↦
            let g' = rw (get, t) at g in
            rw (put, t)
              (
                (id, has, name, find_row-put d key keeper row later id g' same once),
                AreDistinct-put d key keeper row later g' same h,
              )
      ]

  -- A row under a new key comes last.
  values-put_new :
      (d : Dict Fields) (key : String) (row : Fields) (later : List Fields)
      → get d key ≡ none
      → values d ++ (row ∷ later) ≡ values (put d key row) ++ later
  unfolding get put values
  values-put_new [] key row later g = refl
  values-put_new ((k, r) ∷ d) key row later g = elim (Bool-cases (str_eq k key)) [
    | inl t ↦ absurd (let e = rw (get, t) at g in ground (arith, e))
    | inr t ↦
        rw (put, t) (ap (λ rows. r ∷ rows) (values-put_new d key row later (rw (get, t) at g)))
  ]

module _ (service : MemoryService) where
  collapse_subjects-AreDistinct :
      (d : Dict Fields) (merges index : ℕ) (rows : List Fields)
      → AreDistinct service.redact_text (values d ++ rows)
      → AreDistinct service.redact_text
          (values (collapse_subjects service d merges index rows).0 ++ [])
  unfolding collapse_subjects
  collapse_subjects-AreDistinct d merges index [] h = h
  collapse_subjects-AreDistinct d merges index (row ∷ rows) h =
      let key = subject_key service (get_field row "subject") index in
      elim (Option-cases (get d key)) [
        | inl e ↦
            rw (collapse_subjects, e)
              (collapse_subjects-AreDistinct (put d key row) merges (suc index) rows (
                subst (AreDistinct service.redact_text)
                  (values-put_new service.redact_text d key row rows e) h))
        | inr (keeper, e) ↦
            rw (collapse_subjects, e)
              (collapse_subjects-AreDistinct (put d key (absorb keeper row)) (suc merges)
                (suc index) rows
                (AreDistinct-put service.redact_text d key keeper (absorb keeper row) rows e
                  (absorb-memory_id keeper row)
                  (AreDistinct-remove service.redact_text (values d) rows row h)))
      ]

  AreDistinct-append_nil :
      (rows : List Fields)
      → AreDistinct service.redact_text (rows ++ [])
      → AreDistinct service.redact_text rows
  AreDistinct-append_nil rows h = subst (AreDistinct service.redact_text) (append_empty rows) h

  pub collapse_duplicates-AreDistinct :
      (rows : List Fields)
      → AreDistinct service.redact_text rows
      → AreDistinct service.redact_text (collapse_duplicates service rows).0
  unfolding collapse_duplicates values
  collapse_duplicates-AreDistinct rows h =
      AreDistinct-append_nil (values (collapse_subjects service [] 0 0 rows).0)
        (collapse_subjects-AreDistinct [] 0 0 rows h)
