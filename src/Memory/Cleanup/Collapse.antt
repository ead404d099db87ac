-- ===== src/Memory/Cleanup/Collapse.antt =====
-- memory/cleanup.py: collapsing rows that have the same key. The counts of a row are numbers.
use wastech_orchestrator.Prelude.{
  ℕ, suc, Bool, true, false, ◌&&◌, ◌||◌, String, Option, none, some, List, [], ◌∷◌, ◌++◌, length,
  if◌then◌else◌, ltb, str_eq, concat,
}
use wastech_orchestrator.Prelude.Int.{pos}
use wastech_orchestrator.Prelude.Dict.{Dict, get, put}
use wastech_orchestrator.Prelude.Json.{
  Value, text, null, array, object, int, Items, nil, cons, Fields, get_field, put_field, text_items,
}
use wastech_orchestrator.Memory.Store.{MemoryService}
use wastech_orchestrator.Memory.Identity.{normalize_subject}
use wastech_orchestrator.Memory.Ingest.{
  as_str_list, texts_in, distinct, distinct_from, objects_in, items_at, append_item, shown,
}

-- a == b, for what `get` finds where a text is expected
abbrev same_value : Option Value → Option Value → Bool
same_value (some (text s)) (some (text t)) = str_eq s t
same_value none none = true
same_value none (some null) = true
same_value (some null) none = true
same_value (some null) (some null) = true
same_value _ _ = false

-- (item.get("type"), item.get("ref")) in have
unfoldable pub has_item : Items → Fields → Bool
unfolding get_field
has_item nil item = false
has_item (cons (object fields) items) item =
    (same_value (get_field fields "type") (get_field item "type")
      && same_value (get_field fields "ref") (get_field item "ref"))
    || has_item items item
has_item (cons _ items) item = has_item items item

unfoldable pub absorb_items : Items → Items → Items
unfolding has_item
absorb_items evidence nil = evidence
absorb_items evidence (cons (object item) items) =
    if has_item evidence item
    then absorb_items evidence items
    else absorb_items (append_item evidence (object item)) items
absorb_items evidence (cons _ items) = absorb_items evidence items

abbrev count_of : Option Value → ℕ
count_of (some (int (pos n))) = n
count_of _ = 0

unfoldable pub absorb : Fields → Fields → Fields
unfolding get_field put_field text_items objects_in absorb_items texts_in distinct_from
absorb keeper other =
    let mine = objects_in (items_at (get_field keeper "evidence")) in
    let evidence = absorb_items mine (items_at (get_field other "evidence")) in
    let seen = distinct (
      as_str_list (get_field keeper "seen_task_ids")
      ++ as_str_list (get_field other "seen_task_ids")) in
    let used = count_of (get_field keeper "usage_count") in
    put_field
      (put_field (put_field keeper "evidence" (array evidence)) "seen_task_ids"
        (array (text_items seen)))
      "usage_count" (int (pos (if ltb used (length seen) then length seen else used)))

-- f"\0{index}": a key that no text of a row is.
abbrev unnamed : ℕ → String
unnamed index = concat "\0" (shown index)

abbrev pub key_or : Option Value → ℕ → String
key_or (some (text s)) index = if str_eq s "" then unnamed index else s
key_or _ index = unnamed index

-- [by_key[key] for key in order]
unfoldable pub values : Dict Fields → List Fields
values [] = []
values ((k, row) ∷ d) = row ∷ values d

-- The loop of _collapse_by_memory_id.
unfoldable pub collapse_ids : Dict Fields → ℕ → List Fields → Dict Fields
unfolding get put get_field absorb
collapse_ids by_id index [] = by_id
collapse_ids by_id index (row ∷ rows) =
    let key = key_or (get_field row "memory_id") index in
    elim (get by_id key) [
      | some keeper ↦ collapse_ids (put by_id key (absorb keeper row)) (suc index) rows
      | none ↦ collapse_ids (put by_id key row) (suc index) rows
    ]

unfoldable pub collapse_by_memory_id : List Fields → List Fields
unfolding values collapse_ids
collapse_by_memory_id rows = values (collapse_ids [] 0 rows)

abbrev seen_of : Option Fields → List String → List String
unfolding get_field texts_in distinct_from
seen_of (some prior) mine = distinct (as_str_list (get_field prior "last_seen_task_ids") ++ mine)
seen_of none mine = mine

-- The latest content, with the tasks that have seen either.
unfoldable pub latest : Option Fields → Fields → Fields
unfolding get_field put_field text_items texts_in seen_of
latest prior row =
    let seen = seen_of prior (as_str_list (get_field row "last_seen_task_ids")) in
    put_field row "last_seen_task_ids" (array (text_items seen))

-- The loop of _collapse_entities.
unfoldable pub collapse_cards : Dict Fields → ℕ → List Fields → Dict Fields
unfolding get put get_field latest
collapse_cards by_key index [] = by_key
collapse_cards by_key index (row ∷ rows) =
    let key = key_or (get_field row "canonical_name") index in
    collapse_cards (put by_key key (latest (get by_key key) row)) (suc index) rows

unfoldable pub collapse_entities : List Fields → List Fields
unfolding values collapse_cards
collapse_entities rows = values (collapse_cards [] 0 rows)

module _ (service : MemoryService) where
  -- A row without a subject has a key of its own, which the code takes from the row's identity.
  unfoldable pub subject_key : Option Value → ℕ → String
  unfolding normalize_subject
  subject_key (some (text s)) index = normalize_subject service s
  subject_key _ index = unnamed index

  -- The loop of _collapse_duplicates, with its count of merges.
  unfoldable pub collapse_subjects : Dict Fields → ℕ → ℕ → List Fields → Dict Fields × ℕ
  unfolding get put get_field absorb subject_key
  collapse_subjects by_subject merges index [] = (by_subject, merges)
  collapse_subjects by_subject merges index (row ∷ rows) =
      let key = subject_key (get_field row "subject") index in
      elim (get by_subject key) [
        | some keeper ↦
            collapse_subjects (put by_subject key (absorb keeper row)) (suc merges) (suc index) rows
        | none ↦ collapse_subjects (put by_subject key row) merges (suc index) rows
      ]

  unfoldable pub collapse_duplicates : List Fields → List Fields × ℕ
  unfolding values collapse_subjects
  collapse_duplicates rows =
      let (by_subject, merges) = collapse_subjects [] 0 0 rows in (values by_subject, merges)
