-- ===== src/Memory/Cleanup/Collapsed.antt =====
-- memory/cleanup.py: what collapsing keeps of the rows.
use wastech_orchestrator.Prelude.{
  ℕ, suc, String, Option, some, List, [], ◌∷◌, str_eq, some_inj, ◌≡◌, ◌∙◌, subst, inl, inr, arith,
  Bool-cases, Option-cases,
}
use wastech_orchestrator.Prelude.Dict.{Dict, get, put}
use wastech_orchestrator.Prelude.Json.{text, Fields, get_field, get_field-put_field}
use wastech_orchestrator.Memory.Store.{MemoryService}
use wastech_orchestrator.Memory.Store.Kept.{IsDurableRow, AreDurable}
use wastech_orchestrator.Memory.Store.Names.{IsName}
use wastech_orchestrator.Memory.Cleanup.Collapse.{
  latest, absorb, key_or, values, collapse_ids, collapse_by_memory_id, collapse_cards,
  collapse_entities, subject_key, collapse_subjects, collapse_duplicates,
}

-- The row has this identifier.
abbrev pub HasId : Fields → String → Type 0
HasId row id = get_field row "memory_id" ≡ some (text id)

-- Each row has an identifier that redaction leaves alone.
abbrev pub AreNamed : (String → String) → List Fields → Type 0
AreNamed redact_text [] = Unit
AreNamed redact_text (row ∷ rows) =
    ((id : String) × HasId row id × IsName redact_text id) × AreNamed redact_text rows

absorb-trust_level :
    (keeper other : Fields)
    → get_field (absorb keeper other) "trust_level" ≡ get_field keeper "trust_level"
unfolding absorb
absorb-trust_level keeper other = simp get_field-put_field

pub absorb-memory_id :
    (keeper other : Fields)
    → get_field (absorb keeper other) "memory_id" ≡ get_field keeper "memory_id"
unfolding absorb
absorb-memory_id keeper other = simp get_field-put_field

absorb-IsDurableRow :
    (keeper other : Fields) → IsDurableRow keeper → IsDurableRow (absorb keeper other)
absorb-IsDurableRow keeper other (trust, durable, e) =
    (trust, durable, absorb-trust_level keeper other ∙ e)

put-AreDurable :
    (d : Dict Fields) (key : String) (row : Fields)
    → AreDurable (values d)
    → IsDurableRow row
    → AreDurable (values (put d key row))
unfolding put values
put-AreDurable [] key row h new = (new, tt)
put-AreDurable ((k, r) ∷ d) key row h new = elim (Bool-cases (str_eq k key)) [
  | inl e ↦ rw (put, e) (new, h.1)
  | inr e ↦ rw (put, e) (h.0, put-AreDurable d key row h.1 new)
]

get-IsDurableRow :
    (d : Dict Fields) (key : String) (row : Fields)
    → AreDurable (values d)
    → get d key ≡ some row
    → IsDurableRow row
unfolding get values
get-IsDurableRow [] key row h e = absurd (ground (arith, e))
get-IsDurableRow ((k, r) ∷ d) key row h e = elim (Bool-cases (str_eq k key)) [
  | inl t ↦ subst IsDurableRow (some_inj (rw (get, t) at e)) h.0
  | inr t ↦ get-IsDurableRow d key row h.1 (rw (get, t) at e)
]

latest-IsDurableRow :
    (prior : Option Fields) (row : Fields) → IsDurableRow row → IsDurableRow (latest prior row)
unfolding latest
latest-IsDurableRow prior row (trust, durable, e) =
    (trust, durable, get_field-put_field row "last_seen_task_ids" "trust_level" _ ∙ e)

collapse_cards-AreDurable :
    (d : Dict Fields) (index : ℕ) (rows : List Fields)
    → AreDurable (values d)
    → AreDurable rows
    → AreDurable (values (collapse_cards d index rows))
unfolding collapse_cards
collapse_cards-AreDurable d index [] h k = h
collapse_cards-AreDurable d index (row ∷ rows) h (durable, k) =
    let key = key_or (get_field row "canonical_name") index in
    let card = latest (get d key) row in
    collapse_cards-AreDurable (put d key card) (suc index) rows
      (put-AreDurable d key card h (latest-IsDurableRow (get d key) row durable)) k

pub collapse_entities-AreDurable :
    (rows : List Fields) → AreDurable rows → AreDurable (collapse_entities rows)
unfolding collapse_entities values
collapse_entities-AreDurable rows h = collapse_cards-AreDurable [] 0 rows tt h

collapse_ids-AreDurable :
    (d : Dict Fields) (index : ℕ) (rows : List Fields)
    → AreDurable (values d)
    → AreDurable rows
    → AreDurable (values (collapse_ids d index rows))
unfolding collapse_ids
collapse_ids-AreDurable d index [] h k = h
collapse_ids-AreDurable d index (row ∷ rows) h (durable, k) =
    let key = key_or (get_field row "memory_id") index in
    elim (Option-cases (get d key)) [
      | inl e ↦
          rw (collapse_ids, e)
            (collapse_ids-AreDurable (put d key row) (suc index) rows
              (put-AreDurable d key row h durable) k)
      | inr (keeper, e) ↦
          rw (collapse_ids, e)
            (collapse_ids-AreDurable (put d key (absorb keeper row)) (suc index) rows
              (put-AreDurable d key (absorb keeper row) h
                (absorb-IsDurableRow keeper row (get-IsDurableRow d key keeper h e)))
              k)
    ]

pub collapse_by_memory_id-AreDurable :
    (rows : List Fields) → AreDurable rows → AreDurable (collapse_by_memory_id rows)
unfolding collapse_by_memory_id values
collapse_by_memory_id-AreDurable rows h = collapse_ids-AreDurable [] 0 rows tt h

module _ (service : MemoryService) where
  collapse_subjects-AreDurable :
      (d : Dict Fields) (merges index : ℕ) (rows : List Fields)
      → AreDurable (values d)
      → AreDurable rows
      → AreDurable (values (collapse_subjects service d merges index rows).0)
  unfolding collapse_subjects
  collapse_subjects-AreDurable d merges index [] h k = h
  collapse_subjects-AreDurable d merges index (row ∷ rows) h (durable, k) =
      let key = subject_key service (get_field row "subject") index in
      elim (Option-cases (get d key)) [
        | inl e ↦
            rw (collapse_subjects, e)
              (collapse_subjects-AreDurable (put d key row) merges (suc index) rows
                (put-AreDurable d key row h durable) k)
        | inr (keeper, e) ↦
            rw (collapse_subjects, e)
              (collapse_subjects-AreDurable (put d key (absorb keeper row)) (suc merges) (suc index)
                rows
                (put-AreDurable d key (absorb keeper row) h
                  (absorb-IsDurableRow keeper row (get-IsDurableRow d key keeper h e)))
                k)
      ]

  pub collapse_duplicates-AreDurable :
      (rows : List Fields) → AreDurable rows → AreDurable (collapse_duplicates service rows).0
  unfolding collapse_duplicates values
  collapse_duplicates-AreDurable rows h = collapse_subjects-AreDurable [] 0 0 rows tt h
