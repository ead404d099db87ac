-- ===== src/Memory/Audit.antt =====
-- memory/audit.py: the audit log, whose rows are chained by their hashes. Hashing and `json.dumps` are
-- parameters: `digest` is `content_hash(_canonical(row))`. A log whose last row has no text as its
-- `row_hash`, at which `record` raises, is read as if that hash were empty.
pub mod Chain
pub mod Tamper
use wastech_orchestrator.Prelude.{
  ℕ, zero, suc, ◌+◌, ◌==◌, Bool, true, false, ◌&&◌, String, Option, none, some, List, [], ◌∷◌, ◌++◌,
  length, if◌then◌else◌, concat, str_eq,
}
use wastech_orchestrator.Prelude.Json.{
  Value, text, array, Fields, end, field, get_field, drop_field, put_field, text_items,
  text_or_null,
}
use wastech_orchestrator.Providers.Redaction.{redact_mapping}
use Prim.Native.Nat.{◌/◌, ◌%◌}

pub data AuditActor : Type 0 where
  finalizer cleanup operator : AuditActor

abbrev actor_name : AuditActor → String
actor_name finalizer = "finalizer"
actor_name cleanup = "cleanup"
actor_name operator = "operator"

pub data AuditAction : Type 0 where
  append promote merge quarantine prune rollback : AuditAction

abbrev action_name : AuditAction → String
action_name append = "append"
action_name promote = "promote"
action_name merge = "merge"
action_name quarantine = "quarantine"
action_name prune = "prune"
action_name rollback = "rollback"

pub record AuditContext : Type 0 where
  pub timestamp : String
  pub actor : AuditActor
  pub rationale : String
  pub source_artifacts : List String
  pub task_id : String

abbrev digit : ℕ → String
digit n =
    if n == 0
    then "0"
    else if n == 1
    then "1"
    else if n == 2
    then "2"
    else if n == 3
    then "3"
    else if n == 4
    then "4"
    else if n == 5
    then "5"
    else if n == 6
    then "6"
    else if n == 7
    then "7"
    else if n == 8
    then "8"
    else "9"

-- At least `width` digits, for fuel that is no less than the width and the number together.
unfoldable pub padded : ℕ → ℕ → ℕ → String
padded zero width n = ""
padded (suc fuel) zero n =
    let front = padded fuel zero (n / 10) in if n == 0 then "" else concat front (digit (n % 10))
padded (suc fuel) (suc width) n = concat (padded fuel width (n / 10)) (digit (n % 10))

-- f"audit_{n:06d}"
abbrev audit_id : ℕ → String
unfolding padded
audit_id n = concat "audit_" (padded (6 + n) 6 n)

unfoldable pub hash_of : Fields → String
unfolding get_field
hash_of row = elim (get_field row "row_hash") [ some (text s) ↦ s | _ ↦ "" ]

-- existing[-1]["row_hash"] if existing else ""
unfoldable pub last_hash : List Fields → String
unfolding hash_of
last_hash [] = ""
last_hash (row ∷ []) = hash_of row
last_hash (row ∷ next ∷ rows) = last_hash (next ∷ rows)

abbrev pub is_text : Option Value → String → Bool
is_text (some (text s)) t = str_eq s t
is_text _ t = false

module _ (digest : Fields → String) where
  -- body["row_hash"] = content_hash(_canonical(body))
  unfoldable pub hashed : Fields → Fields
  unfolding put_field
  hashed body = put_field body "row_hash" (text (digest body))

  -- The row continues the chain whose last hash is `prev`.
  unfoldable pub is_link : String → Fields → Bool
  unfolding get_field drop_field
  is_link prev row =
      is_text (get_field row "prev_hash") prev
      && is_text (get_field row "row_hash") (digest (drop_field row "row_hash"))

  -- The loop of `verify_chain`.
  unfoldable pub verify_from : String → List Fields → Bool
  unfolding is_link hash_of
  verify_from prev [] = true
  verify_from prev (row ∷ rows) =
      let rest = verify_from (hash_of row) rows in if is_link prev row then rest else false

  unfoldable pub verify_chain : List Fields → Bool
  unfolding verify_from
  verify_chain rows = verify_from "" rows

module _ (redact_text : String → String) where
  -- The row before its hash.
  unfoldable pub audit_body :
      List Fields
      → AuditAction
      → List String
      → Option String
      → Option String
      → AuditContext
      → Fields
  unfolding padded last_hash text_items redact_mapping
  audit_body existing action affected_ids pre_hash post_hash context = redact_mapping redact_text (
      field "id" (text (audit_id (length existing))) (
        field "task_id" (text context.task_id) (
          field "timestamp" (text context.timestamp) (
            field "actor" (text (actor_name context.actor)) (
              field "action" (text (action_name action)) (
                field "source_artifacts" (array (text_items context.source_artifacts)) (
                  field "affected_ids" (array (text_items affected_ids)) (
                    field "pre_hash" (text_or_null pre_hash) (
                      field "post_hash" (text_or_null post_hash) (
                        field "rationale" (text context.rationale)
                          (field "prev_hash" (text (last_hash existing)) end)))))))))))

  -- The log after `record`: one more row.
  unfoldable pub record_row :
      (Fields → String)
      → List Fields
      → AuditAction
      → List String
      → Option String
      → Option String
      → AuditContext
      → List Fields
  unfolding audit_body hashed
  record_row digest existing action affected_ids pre_hash post_hash context =
      existing
      ++ (hashed digest (audit_body existing action affected_ids pre_hash post_hash context) ∷ [])
