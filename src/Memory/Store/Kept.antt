-- ===== src/Memory/Store/Kept.antt =====
-- memory/service.py: the trust in the rows of a file.
use wastech_orchestrator.Prelude.{
  true, String, some, List, [], ◌∷◌, ◌++◌, map, some_inj, ◌≡◌, ap, ◌∙◌, subst, inl, inr, arith,
  Bool-cases,
}
use wastech_orchestrator.Prelude.Json.{text, Fields, get_field}
use wastech_orchestrator.Providers.Redaction.{
  is_sensitive_key, segments, redact_node, redact_value, get_field-redact_mapping,
}
use wastech_orchestrator.Memory.Lifecycle.{TrustLevel, is_durable_candidate, same_codes}
use wastech_orchestrator.Memory.Audit.{is_text}
use wastech_orchestrator.Memory.Records.{trust_value}
use wastech_orchestrator.Memory.Store.{MemoryService, find_row, replace_row, redact}
use mathlib.Core.Option

-- The row has the value of a trust level that may back a durable record.
abbrev pub IsDurableRow : Fields → Type 0
IsDurableRow row =
    (trust : TrustLevel) × (is_durable_candidate trust ≡ true)
    × (get_field row "trust_level" ≡ some (text (trust_value trust)))

abbrev pub AreDurable : List Fields → Type 0
AreDurable [] = Unit
AreDurable (row ∷ rows) = IsDurableRow row × AreDurable rows

pub AreDurable-append :
    (rows : List Fields) (row : Fields)
    → AreDurable rows
    → IsDurableRow row
    → AreDurable (rows ++ (row ∷ []))
AreDurable-append [] row h d = (d, tt)
AreDurable-append (r ∷ rows) row h d = (h.0, AreDurable-append rows row h.1 d)

pub AreDurable-replace_row :
    (rows : List Fields) (key value : String) (row : Fields)
    → AreDurable rows
    → IsDurableRow row
    → AreDurable (replace_row rows key value row)
unfolding replace_row
AreDurable-replace_row [] key value row h d = tt
AreDurable-replace_row (r ∷ rows) key value row h d =
    elim (Bool-cases (is_text (get_field r key) value)) [
      | inl e ↦ rw (replace_row, e) (d, h.1)
      | inr e ↦ rw (replace_row, e) (h.0, AreDurable-replace_row rows key value row h.1 d)
    ]

pub find_row-IsDurableRow :
    (rows : List Fields) (key value : String) (row : Fields)
    → AreDurable rows
    → find_row rows key value ≡ some row
    → IsDurableRow row
unfolding find_row
find_row-IsDurableRow [] key value row h e = absurd (ground arith)
find_row-IsDurableRow (r ∷ rows) key value row h e =
    elim (Bool-cases (is_text (get_field r key) value)) [
      | inl t ↦ subst IsDurableRow (some_inj (rw (find_row, t) at e)) h.0
      | inr t ↦ find_row-IsDurableRow rows key value row h.1 (rw (find_row, t) at e)
    ]

module _ (service : MemoryService)
    (keeps_trust : (t : TrustLevel) → service.redact_text (trust_value t) ≡ trust_value t) where
  pub redact-IsDurableRow : (row : Fields) → IsDurableRow row → IsDurableRow (redact service row)
  unfolding redact redact_value redact_node is_sensitive_key segments same_codes
  redact-IsDurableRow row (trust, durable, e) = (
    trust,
    durable,
    get_field-redact_mapping service.redact_text row "trust_level"
        ∙ ap (Option.map (redact_value service.redact_text "trust_level")) e
        ∙ ap (λ s. some (text s)) (keeps_trust trust),
  )

  pub redact-AreDurable :
      (rows : List Fields) → AreDurable rows → AreDurable (map (redact service) rows)
  redact-AreDurable [] h = tt
  redact-AreDurable (row ∷ rows) h = (redact-IsDurableRow row h.0, redact-AreDurable rows h.1)
