-- ===== src/Memory/Cleanup/Distinct.antt =====
-- memory/cleanup.py: collapsing by identifier, and the identifiers of lessons.
use wastech_orchestrator.Prelude.{
  ℕ, suc, false, String, none, some, List, [], ◌∷◌, str_eq, eq_iff, some_inj, ◌≡◌, refl, sym, ap,
  ◌∙◌, subst, inl, inr, arith, Bool-cases, Option-cases,
}
use wastech_orchestrator.Prelude.Dict.{Dict, get, put, get-put}
use wastech_orchestrator.Prelude.Json.{text, Fields, get_field}
use wastech_orchestrator.Memory.Store.{find_row}
use wastech_orchestrator.Memory.Store.Names.{IsName, AreDistinct, find_row-later, is_text-id}
use wastech_orchestrator.Memory.Cleanup.Collapse.{
  absorb, key_or, values, collapse_ids, collapse_by_memory_id,
}
use wastech_orchestrator.Memory.Cleanup.Collapsed.{HasId, AreNamed, absorb-memory_id}

module _ (redact_text : String → String) where
  -- Each row is under its identifier.
  abbrev IsKeyed : Dict Fields → Type 0
  IsKeyed [] = Unit
  IsKeyed ((k, row) ∷ d) = (HasId row k × IsName redact_text k × (get d k ≡ none)) × IsKeyed d

  put-IsKeyed :
      (d : Dict Fields) (key : String) (row : Fields)
      → IsKeyed d
      → HasId row key
      → IsName redact_text key
      → IsKeyed (put d key row)
  unfolding put get
  put-IsKeyed [] key row h has named = ((has, named, refl), tt)
  put-IsKeyed ((k, r) ∷ d) key row ((own, name, once), h) has named =
      elim (Bool-cases (str_eq k key)) [
        | inl e ↦
            rw (put, e) ((has ∙ ap (λ i. some (text i)) (sym ((eq_iff k key).0 e)), name, once), h)
        | inr e ↦
            let apart : str_eq key k ≡ false = ground (arith, eq_iff k key, eq_iff key k, e) in
            rw (put, e)
              (
                (own, name, cc (get-put d key k row, apart, once)),
                put-IsKeyed d key row h has named,
              )
      ]

  get-IsKeyed :
      (d : Dict Fields) (key : String) (row : Fields)
      → IsKeyed d
      → get d key ≡ some row
      → HasId row key
  unfolding get
  get-IsKeyed [] key row h e = absurd (ground (arith, e))
  get-IsKeyed ((k, r) ∷ d) key row ((own, name, once), h) e = elim (Bool-cases (str_eq k key)) [
    | inl t ↦
        subst (λ x. HasId x key) (some_inj (rw (get, t) at e))
          (own ∙ ap (λ i. some (text i)) ((eq_iff k key).0 t))
    | inr t ↦ get-IsKeyed d key row h (rw (get, t) at e)
  ]

  find_row-values :
      (d : Dict Fields) (key : String)
      → IsKeyed d
      → get d key ≡ none
      → find_row (values d) "memory_id" key ≡ none
  unfolding get values find_row
  find_row-values [] key h e = refl
  find_row-values ((k, r) ∷ d) key ((own, name, once), h) e = elim (Bool-cases (str_eq k key)) [
    | inl t ↦ absurd (let g = rw (get, t) at e in ground (arith, g))
    | inr t ↦
        find_row-later r (values d) "memory_id" key (is_text-id r k key own ∙ t)
          (find_row-values d key h (rw (get, t) at e))
  ]

  values-AreDistinct : (d : Dict Fields) → IsKeyed d → AreDistinct redact_text (values d)
  unfolding values
  values-AreDistinct [] h = tt
  values-AreDistinct ((k, r) ∷ d) ((own, name, once), h) =
      ((k, own, name, find_row-values d k h once), values-AreDistinct d h)

  collapse_ids-IsKeyed :
      (d : Dict Fields) (index : ℕ) (rows : List Fields)
      → IsKeyed d
      → AreNamed redact_text rows
      → IsKeyed (collapse_ids d index rows)
  unfolding collapse_ids
  collapse_ids-IsKeyed d index [] h k = h
  collapse_ids-IsKeyed d index (row ∷ rows) h ((id, has, name), k) =
      let key = key_or (get_field row "memory_id") index in
      let same : key ≡ id = rw (has, name.1) refl in
      let named : IsName redact_text key = rw same name in
      let own : HasId row key = has ∙ ap (λ i. some (text i)) (sym same) in
      elim (Option-cases (get d key)) [
        | inl e ↦
            rw (collapse_ids, e)
              (collapse_ids-IsKeyed (put d key row) (suc index) rows
                (put-IsKeyed d key row h own named) k)
        | inr (keeper, e) ↦
            rw (collapse_ids, e)
              (collapse_ids-IsKeyed (put d key (absorb keeper row)) (suc index) rows
                (put-IsKeyed d key (absorb keeper row) h
                  (absorb-memory_id keeper row ∙ get-IsKeyed d key keeper h e) named)
                k)
      ]

  pub collapse_by_memory_id-AreDistinct :
      (rows : List Fields)
      → AreNamed redact_text rows
      → AreDistinct redact_text (collapse_by_memory_id rows)
  unfolding collapse_by_memory_id
  collapse_by_memory_id-AreDistinct rows h =
      values-AreDistinct (collapse_ids [] 0 rows) (collapse_ids-IsKeyed [] 0 rows tt h)
