-- ===== src/Memory/Store.antt =====
-- memory/service.py: the store's files, their reads, and the writes, each redacted and audited.
-- A file is the list of its rows, under its path below the memory root; a file that does not exist has
-- no entry. `file_digest` is the hash of a file with these rows; a failure of the disk is not modelled.
pub mod Writes
pub mod Kept
pub mod Names
use wastech_orchestrator.Prelude.{
  ℕ, Bool, true, not, String, Option, none, some, List, [], ◌∷◌, ◌++◌, map, filter, if◌then◌else◌,
  str_eq, or_default,
}
use wastech_orchestrator.Prelude.Int.{ℤ}
use wastech_orchestrator.Prelude.Dict.{Dict, get, put}
use wastech_orchestrator.Prelude.Json.{Value, text, Fields, get_field}
use wastech_orchestrator.Providers.Redaction.{redact_mapping}
use wastech_orchestrator.Memory.Audit.{
  AuditAction, append, quarantine, prune, AuditContext, is_text, record_row,
}
use wastech_orchestrator.Memory.Records.{
  LongTermKind, semantic, procedural, reviewer, failure, MemoryRecord, episode, long_term, entity,
  as_row, record_id,
}
use mathlib.Core.Option

-- What the service is built with, and the parts of the platform that it uses: hashes, `str.lower`,
-- and `datetime.fromisoformat`, as microseconds, with none for a text that it refuses.
pub record MemoryService : Type 0 where
  pub redact_text : String → String
  pub digest : Fields → String
  pub file_digest : List Fields → String
  pub id_digest : String → String
  pub lower_text : String → String
  pub instant : String → Option ℤ
  pub promote_min_tasks : ℕ
  pub promote_window_days : ℕ
  pub path_exists : Option (String → Bool)

pub record MemoryStore : Type 0 where
  pub files : Dict (List Fields)
  pub log : List Fields

abbrev pub recent_path : String
recent_path = "short_term/recent.jsonl"

abbrev pub entities_path : String
entities_path = "entities/entities.jsonl"

abbrev pub pending_path : String
pending_path = "quarantine/pending.jsonl"

abbrev pub long_term_path : LongTermKind → String
long_term_path semantic = "long_term/semantic.jsonl"
long_term_path procedural = "long_term/procedural.jsonl"
long_term_path reviewer = "long_term/reviewer.jsonl"
long_term_path failure = "long_term/failures.jsonl"

-- _path_for
abbrev pub path_for : MemoryRecord → String
path_for (episode r) = recent_path
path_for (entity r) = entities_path
path_for (long_term r) = long_term_path r.kind

-- _io.read_jsonl
unfoldable pub read : MemoryStore → String → List Fields
unfolding get
read store path = or_default (get store.files path) []

abbrev pub nonempty_text : Option Value → Option String
nonempty_text (some (text s)) = if str_eq s "" then none else some s
nonempty_text _ = none

abbrev any_text : Option Value → Option String
any_text (some (text s)) = some s
any_text _ = none

abbrev or_else : Option String → Option String → Option String
or_else none o = o
or_else (some s) o = some s

-- _id_of: an identifier is a text in each row.
unfoldable pub id_of : Fields → Option String
unfolding get_field
id_of row =
    or_else (nonempty_text (get_field row "memory_id"))
      (or_else (nonempty_text (get_field row "entity_id")) (any_text (get_field row "id")))

unfoldable pub ids : List Fields → List String
unfolding id_of
ids [] = []
ids (row ∷ rows) = elim (id_of row) [ none ↦ ids rows | some i ↦ i ∷ ids rows ]

-- _find, and the row that _index_by finds
unfoldable pub find_row : List Fields → String → String → Option Fields
unfolding get_field
find_row [] key value = none
find_row (row ∷ rows) key value =
    if is_text (get_field row key) value then some row else find_row rows key value

-- rows[_index_by(rows, key, value)] = row
unfoldable pub replace_row : List Fields → String → String → Fields → List Fields
unfolding get_field
replace_row [] key value row = []
replace_row (r ∷ rows) key value row =
    let rest = replace_row rows key value row in
    if is_text (get_field r key) value then row ∷ rows else r ∷ rest

unfoldable pub without_id : List Fields → String → List Fields
unfolding id_of
without_id rows ident =
    filter (λ row. elim (id_of row) [ none ↦ true | some i ↦ not (str_eq i ident) ]) rows

module _ (service : MemoryService) where
  -- The file is written, and the log has a row with its hashes before and after.
  unfoldable pub save :
      MemoryStore → String → List Fields → AuditAction → List String → AuditContext → MemoryStore
  unfolding get put record_row
  save store path rows action affected_ids audit = record {
    files = put store.files path rows;
    log =
        record_row service.redact_text service.digest store.log action affected_ids
          (Option.map service.file_digest (get store.files path)) (some (service.file_digest rows))
          audit;
  }

  -- _redact
  unfoldable pub redact : Fields → Fields
  unfolding redact_mapping
  redact row = redact_mapping service.redact_text row

  unfoldable pub append_row :
      MemoryStore → String → Fields → String → AuditAction → AuditContext → MemoryStore
  unfolding read save redact
  append_row store path row affected_id action audit =
      save store path (read store path ++ (redact row ∷ [])) action (affected_id ∷ []) audit

  unfoldable pub replace_rows :
      MemoryStore → String → List Fields → List String → AuditAction → AuditContext → MemoryStore
  unfolding save redact
  replace_rows store path rows affected_ids action audit =
      save store path (map redact rows) action affected_ids audit

  unfoldable pub append_record : MemoryStore → MemoryRecord → AuditContext → MemoryStore
  unfolding append_row as_row
  append_record store r audit = append_row store (path_for r) (as_row r) (record_id r) append audit

  unfoldable pub put_pending : MemoryStore → List Fields → MemoryRecord → AuditContext → MemoryStore
  unfolding replace_rows without_id as_row
  put_pending store pending r audit =
      replace_rows store pending_path (without_id pending (record_id r) ++ (as_row r ∷ []))
        (record_id r ∷ []) quarantine audit

  unfoldable pub drop_pending : MemoryStore → List Fields → String → AuditContext → MemoryStore
  unfolding replace_rows without_id
  drop_pending store pending memory_id audit =
      replace_rows store pending_path (without_id pending memory_id) (memory_id ∷ []) prune audit
