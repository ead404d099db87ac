-- ===== src/Memory/Proposals.antt =====
-- memory/service.py: what `_ingest_long_term` is given, and its locals before the branches.
use wastech_orchestrator.Prelude.{
  ◌*◌, Bool, true, false, String, Option, none, some, List, [], ◌∷◌, ◌++◌, length, if◌then◌else◌,
  str_eq, or_default, is_some,
}
use wastech_orchestrator.Prelude.Int.{pos, le_int, ◌-ℤ◌}
use wastech_orchestrator.Prelude.Json.{Value, Fields, get_field}
use wastech_orchestrator.Memory.Lifecycle.{Evidence, TrustLevel, assign_trust}
use wastech_orchestrator.Memory.Records.{LongTermKind, failure, Scope, LongTermRecord}
use wastech_orchestrator.Memory.Store.{
  MemoryService, MemoryStore, pending_path, read, find_row, nonempty_text,
}
use wastech_orchestrator.Memory.Identity.{derive_long_term_id}
use wastech_orchestrator.Memory.Ingest.{
  CandidateLesson, CandidateFailure, distinct, distinct_from, as_str_list, texts_in,
}

-- The keyword arguments of `_ingest_long_term` that describe the lesson.
pub record Proposal : Type 0 where
  pub kind : LongTermKind
  pub subject : String
  pub statement : String
  pub rationale : Option String
  pub scope : Scope
  pub evidence : List Evidence
  pub remedy : Option String
  pub explained_failure : Bool

-- Its locals, before the branches.
pub record Local : Type 0 where
  pub trust : TrustLevel
  pub memory_id : String
  pub pending : List Fields
  pub prior : Option Fields
  pub seen : List String
  pub first_seen : String

-- (prior.get(key) if prior else None)
abbrev prior_at : Option Fields → String → Option Value
unfolding get_field
prior_at none key = none
prior_at (some row) key = get_field row key

-- `build`
abbrev pub build : Proposal → Local → String → String → LongTermRecord
build p l now status = record {
  memory_id = l.memory_id;
  kind = p.kind;
  subject = p.subject;
  statement = p.statement;
  trust_level = l.trust;
  rationale = p.rationale;
  scope = p.scope;
  evidence = p.evidence;
  remedy = p.remedy;
  status = status;
  first_seen_commit = none;
  last_verified_commit = none;
  last_verified_at = some now;
  usage_count = length l.seen;
  supersedes = [];
  first_seen_at = some l.first_seen;
  seen_task_ids = l.seen;
}

-- cand.remedy or cand.signature
abbrev statement_of : Option String → String → String
statement_of none signature = signature
statement_of (some remedy) signature = if str_eq remedy "" then signature else remedy

-- The arguments from `_ingest_lesson`.
abbrev pub lesson_proposal : CandidateLesson → Proposal
lesson_proposal c = record {
  kind = c.kind;
  subject = c.subject;
  statement = c.statement;
  rationale = c.rationale;
  scope = c.scope;
  evidence = c.evidence;
  remedy = none;
  explained_failure = false;
}

-- The arguments from `_ingest_failure`.
abbrev pub failure_proposal : CandidateFailure → Proposal
failure_proposal c = record {
  kind = failure;
  subject = c.signature;
  statement = statement_of c.remedy c.signature;
  rationale = none;
  scope = record { paths = c.paths; symbols = []; nodes = [] };
  evidence = c.evidence;
  remedy = c.remedy;
  explained_failure = is_some c.remedy;
}

module _ (service : MemoryService) where
  -- Between stamps with an offset, or between stamps without.
  unfoldable pub within_window : String → String → Bool
  within_window first_seen_at now = elim (service.instant first_seen_at) [
    | none ↦ true
    | some start ↦ elim (service.instant now) [
      | none ↦ true
      | some end_at ↦ le_int (end_at -ℤ start) (pos (service.promote_window_days * 86400000000))
    ]
  ]

  unfoldable pub local_of : MemoryStore → Proposal → String → String → Local
  unfolding assign_trust derive_long_term_id read find_row prior_at distinct_from texts_in
  local_of store p now task_id =
      let memory_id = derive_long_term_id service p.kind p.subject p.scope.paths in
      let pending = read store pending_path in
      let prior = find_row pending "memory_id" memory_id in
      record {
        trust = assign_trust p.evidence;
        memory_id = memory_id;
        pending = pending;
        prior = prior;
        seen = distinct (as_str_list (prior_at prior "seen_task_ids") ++ (task_id ∷ []));
        first_seen = or_default (nonempty_text (prior_at prior "first_seen_at")) now;
      }
