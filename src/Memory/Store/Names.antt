-- ===== src/Memory/Store/Names.antt =====
-- memory/service.py: the identifiers of the rows of a file.
use wastech_orchestrator.Prelude.{
  false, String, none, some, List, [], ◌∷◌, ◌++◌, map, str_eq, eq_iff, some_inj, ◌≡◌, refl, sym, ap,
  ◌∙◌, subst, inl, inr, arith, Bool-cases,
}
use wastech_orchestrator.Prelude.Json.{text, Fields, get_field}
use wastech_orchestrator.Providers.Redaction.{
  is_sensitive_key, segments, redact_node, redact_value, get_field-redact_mapping,
}
use wastech_orchestrator.Memory.Lifecycle.{same_codes}
use wastech_orchestrator.Memory.Audit.{is_text}
use wastech_orchestrator.Memory.Audit.Chain.{is_text-some}
use wastech_orchestrator.Memory.Store.{MemoryService, find_row, replace_row, redact}
use mathlib.Core.Option

-- An identifier that redaction leaves alone, and that is not empty.
abbrev pub IsName : (String → String) → String → Type 0
IsName redact_text id = (redact_text id ≡ id) × (str_eq id "" ≡ false)

-- No two rows have the same identifier.
abbrev pub AreDistinct : (String → String) → List Fields → Type 0
AreDistinct redact_text [] = Unit
AreDistinct redact_text (row ∷ rows) =
    ((id : String) × (get_field row "memory_id" ≡ some (text id))
      × IsName redact_text id
      × (find_row rows "memory_id" id ≡ none))
    × AreDistinct redact_text rows

-- The row that is found has the value.
pub find_row-is_text :
    (rows : List Fields) (key value : String) (row : Fields)
    → find_row rows key value ≡ some row
    → get_field row key ≡ some (text value)
unfolding find_row
find_row-is_text [] key value row e = absurd (ground arith)
find_row-is_text (r ∷ rows) key value row e = elim (Bool-cases (is_text (get_field r key) value)) [
  | inl t ↦
      subst (λ x. get_field x key ≡ some (text value)) (some_inj (rw (find_row, t) at e))
        (is_text-some (get_field r key) value t)
  | inr t ↦ find_row-is_text rows key value row (rw (find_row, t) at e)
]

-- No row has the value, neither the first nor a later one.
pub find_row-none :
    (row : Fields) (rows : List Fields) (key value : String)
    → find_row (row ∷ rows) key value ≡ none
    → (is_text (get_field row key) value ≡ false) × (find_row rows key value ≡ none)
unfolding find_row
find_row-none row rows key value e = elim (Bool-cases (is_text (get_field row key) value)) [
  | inl t ↦ absurd (let h = rw (find_row, t) at e in ground (arith, h))
  | inr t ↦ (t, rw (find_row, t) at e)
]

pub find_row-later :
    (row : Fields) (rows : List Fields) (key value : String)
    → is_text (get_field row key) value ≡ false
    → find_row rows key value ≡ none
    → find_row (row ∷ rows) key value ≡ none
unfolding find_row
find_row-later row rows key value t e = rw (find_row, t) e

-- What a row with this identifier says of another identifier.
pub is_text-id :
    (row : Fields) (id other : String)
    → get_field row "memory_id" ≡ some (text id)
    → is_text (get_field row "memory_id") other ≡ str_eq id other
is_text-id row id other e = ap (λ v. is_text v other) e

find_row-append :
    (rows : List Fields) (row : Fields) (value : String)
    → find_row rows "memory_id" value ≡ none
    → is_text (get_field row "memory_id") value ≡ false
    → find_row (rows ++ (row ∷ [])) "memory_id" value ≡ none
find_row-append [] row value e t = find_row-later row [] "memory_id" value t e
find_row-append (r ∷ rows) row value e t =
    let (other, later) = find_row-none r rows "memory_id" value e in
    find_row-later r (rows ++ (row ∷ [])) "memory_id" value other
      (find_row-append rows row value later t)

find_row-replace_row :
    (rows : List Fields) (row : Fields) (id value : String)
    → get_field row "memory_id" ≡ some (text id)
    → find_row rows "memory_id" value ≡ none
    → find_row (replace_row rows "memory_id" id row) "memory_id" value ≡ none
unfolding replace_row
find_row-replace_row [] row id value has e = e
find_row-replace_row (r ∷ rows) row id value has e =
    let (other, later) = find_row-none r rows "memory_id" value e in
    elim (Bool-cases (is_text (get_field r "memory_id") id)) [
      | inl t ↦
          let same = is_text-some (get_field r "memory_id") id t in
          rw (replace_row, t)
            (find_row-later row rows "memory_id" value
              (is_text-id row id value has ∙ sym (is_text-id r id value same) ∙ other) later)
      | inr t ↦
          rw (replace_row, t)
            (find_row-later r (replace_row rows "memory_id" id row) "memory_id" value other
              (find_row-replace_row rows row id value has later))
    ]

text_inj : (s t : String) → some (text s) ≡ some (text t) → s ≡ t
text_inj s t e = cc

module _ (redact_text : String → String) where
  pub AreDistinct-append :
      (rows : List Fields) (row : Fields) (id : String)
      → AreDistinct redact_text rows
      → get_field row "memory_id" ≡ some (text id)
      → IsName redact_text id
      → find_row rows "memory_id" id ≡ none
      → AreDistinct redact_text (rows ++ (row ∷ []))
  unfolding find_row
  AreDistinct-append [] row id h has kept new = ((id, has, kept, refl), tt)
  AreDistinct-append (r ∷ rows) row id ((own, owns, fixed, once), h) has kept new =
      let (other, later) = find_row-none r rows "memory_id" id new in
      let differ : str_eq id own ≡ false =
        ground (arith, eq_iff id own, eq_iff own id, is_text-id r own id owns, other) in
      (
        (own, owns, fixed, find_row-append rows row own once (is_text-id row id own has ∙ differ)),
        AreDistinct-append rows row id h has kept later,
      )

  pub AreDistinct-replace_row :
      (rows : List Fields) (row : Fields) (id : String)
      → AreDistinct redact_text rows
      → get_field row "memory_id" ≡ some (text id)
      → AreDistinct redact_text (replace_row rows "memory_id" id row)
  unfolding find_row replace_row
  AreDistinct-replace_row [] row id h has = tt
  AreDistinct-replace_row (r ∷ rows) row id ((own, owns, fixed, once), h) has =
      elim (Bool-cases (is_text (get_field r "memory_id") id)) [
        | inl t ↦
            let same : own ≡ id =
              text_inj own id (sym owns ∙ is_text-some (get_field r "memory_id") id t) in
            rw (replace_row, t) ((own, has ∙ ap (λ i. some (text i)) (sym same), fixed, once), h)
        | inr t ↦
            rw (replace_row, t)
              (
                (own, owns, fixed, find_row-replace_row rows row id own has once),
                AreDistinct-replace_row rows row id h has,
              )
      ]

module _ (service : MemoryService) where
  pub redact-id :
      (row : Fields) (id : String)
      → get_field row "memory_id" ≡ some (text id)
      → IsName service.redact_text id
      → get_field (redact service row) "memory_id" ≡ some (text id)
  unfolding redact redact_value redact_node is_sensitive_key segments same_codes
  redact-id row id e kept =
      get_field-redact_mapping service.redact_text row "memory_id"
      ∙ ap (Option.map (redact_value service.redact_text "memory_id")) e
      ∙ ap (λ s. some (text s)) kept.0

  find_row-redact :
      (rows : List Fields) (id : String)
      → AreDistinct service.redact_text rows
      → find_row rows "memory_id" id ≡ none
      → find_row (map (redact service) rows) "memory_id" id ≡ none
  unfolding find_row
  find_row-redact [] id h e = refl
  find_row-redact (row ∷ rows) id ((own, has, kept, new), h) e =
      let (other, later) = find_row-none row rows "memory_id" id e in
      find_row-later (redact service row) (map (redact service) rows) "memory_id" id
        (is_text-id (redact service row) own id (redact-id row own has kept)
          ∙ sym (is_text-id row own id has)
          ∙ other)
        (find_row-redact rows id h later)

  pub redact-AreDistinct :
      (rows : List Fields)
      → AreDistinct service.redact_text rows
      → AreDistinct service.redact_text (map (redact service) rows)
  redact-AreDistinct [] h = tt
  redact-AreDistinct (row ∷ rows) ((id, has, kept, new), h) = (
    (id, redact-id row id has kept, kept, find_row-redact rows id h new),
    redact-AreDistinct rows h,
  )
