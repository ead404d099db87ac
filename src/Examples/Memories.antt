-- ===== src/Examples/Memories.antt =====
-- The theorems on the agent's memory at a small store, whose hash of a row is its identifier.
use wastech_orchestrator.Prelude.{
  ◌+◌, ◌≤◌, ◌≡◌, refl, ap, inl, inr, arith, eq_iff, length, ◌∷◌, true, false, String, Option, none,
  some, [], concat, str_eq,
}
use wastech_orchestrator.Prelude.Chars.{codes}
use wastech_orchestrator.Prelude.Int.{pos}
use wastech_orchestrator.Memory.Cleanup.Passes.{episode_id}
use wastech_orchestrator.Prelude.Dict.{get}
use wastech_orchestrator.Prelude.Json.{
  Value, text, array, object, nil, cons, Fields, end, field, get_field,
}
use wastech_orchestrator.Memory.Lifecycle.{repo_observed}
use wastech_orchestrator.Memory.Audit.{AuditContext, finalizer, verify_from, verify_chain}
use wastech_orchestrator.Memory.Records.{semantic, EpisodeRecord}
use wastech_orchestrator.Memory.Store.{MemoryService, MemoryStore, pending_path, recent_path, read}
use wastech_orchestrator.Memory.Ingest.{
  CandidateLesson, CandidateEntity, CandidateDelta, from_success, from_failure,
}
use wastech_orchestrator.Memory.Funnel.{apply_delta}
use wastech_orchestrator.Memory.Funnel.Sound.{IsSound}
use wastech_orchestrator.Memory.Funnel.Invariant.{apply_delta-IsSound}
use wastech_orchestrator.Memory.Funnel.Failures.{apply_delta_failed}
use wastech_orchestrator.Memory.Funnel.Tally.{counted, apply_delta-counted}
use wastech_orchestrator.Memory.Delta.{parse_delta, delta_of}
use wastech_orchestrator.Memory.Delta.Usable.{IsUsable, parse_delta-IsUsable}
use wastech_orchestrator.Memory.Snapshots.{tier_candidates, take_snapshot, restore}
use wastech_orchestrator.Memory.Snapshots.Restored.{restore-take_snapshot}
use wastech_orchestrator.Memory.Cleanup.{CleanupJob}
use wastech_orchestrator.Memory.Cleanup.Run.{run_once}
use wastech_orchestrator.Memory.Cleanup.Bounded.{run_once-bounded}
use wastech_orchestrator.Memory.Cleanup.Dropped.{AreApart}
use wastech_orchestrator.Memory.Cleanup.Recent.{recent, Keeps}
use wastech_orchestrator.Memory.Cleanup.Dry.{run_once_dry}
use wastech_orchestrator.Memory.Cleanup.Sound.{run_once-IsSound}

abbrev pub text_or_empty : Option Value → String
text_or_empty (some (text s)) = s
text_or_empty _ = ""

unfoldable pub id_hash : Fields → String
unfolding get_field
id_hash body = concat "h" (text_or_empty (get_field body "id"))

abbrev service : MemoryService
service = record {
  redact_text = λ s. s;
  digest = id_hash;
  file_digest = λ rows. "file";
  id_digest = λ s. s;
  lower_text = λ s. s;
  instant = λ s. none;
  promote_min_tasks = 2;
  promote_window_days = 60;
  path_exists = some (λ p. str_eq p "src/a.py");
}

abbrev empty_store : MemoryStore
empty_store = record { files = []; log = [] }

abbrev pub audit : AuditContext
audit = record {
  timestamp = "2026-01-02T00:00:00+00:00";
  actor = finalizer;
  rationale = "";
  source_artifacts = [];
  task_id = "";
}

abbrev lesson_from : String → CandidateLesson
lesson_from kind = record {
  kind = semantic;
  subject = "tests";
  statement = "run them";
  rationale = none;
  scope = record { paths = "src/a.py" ∷ []; symbols = []; nodes = [] };
  evidence = record { type = kind; ref = "README" } ∷ [];
  trust_hint = none;
}

abbrev card : CandidateEntity
card = record {
  entity_id = "a";
  entity_type = "file";
  paths = "src/a.py" ∷ [];
  symbols = [];
  summary = "";
  relationships = [];
  risk_notes = [];
}

-- One lesson of the repository, one of the web, and a card.
abbrev delta : CandidateDelta
delta = record {
  lessons = lesson_from "repo" ∷ lesson_from "web" ∷ [];
  failures = [];
  entities = card ∷ [];
}

abbrev episode : EpisodeRecord
episode = record {
  id = "ep1";
  task_id = "t1";
  created_at = "2026-01-02";
  trust_level = repo_observed;
  task_type = none;
  base_commit = none;
  head_commit = none;
  touched_paths = [];
  touched_symbols = [];
  stage_outcomes = [];
  artifact_paths = [];
  expires_at = none;
}

empty_store-IsSound : IsSound service empty_store
unfolding read get verify_chain verify_from
empty_store-IsSound = record { kept = λ path. ((λ kind e. (tt, tt)), λ e. tt); verified = refl }

apply_delta-IsSound_example :
    IsSound service (apply_delta service empty_store (some delta) episode from_success audit).0
apply_delta-IsSound_example =
    apply_delta-IsSound service (λ t. refl) (λ body. refl) refl (λ s. refl) empty_store (some delta)
      episode from_success audit empty_store-IsSound

apply_delta_failed_example :
    read
      (apply_delta service empty_store (some delta) episode from_failure audit).0
      "long_term/semantic.jsonl"
    ≡ read empty_store "long_term/semantic.jsonl"
apply_delta_failed_example =
    apply_delta_failed service empty_store (some delta) episode audit "long_term/semantic.jsonl"
      (inl (semantic, refl))

apply_delta-counted_example :
    counted (apply_delta service empty_store (some delta) episode from_success audit).1 ≡ 3
apply_delta-counted_example =
    apply_delta-counted service empty_store delta episode from_success audit

abbrev raw_lesson : Value
raw_lesson = object (
    field "kind" (text "semantic")
      (field "subject" (text "tests") (field "statement" (text "run them") end)))

abbrev raw : Fields
raw = field "lessons" (array (cons raw_lesson nil)) end

parse_delta-raw : parse_delta (object raw) ≡ some (delta_of raw)
unfolding parse_delta
parse_delta-raw = refl

parse_delta-IsUsable_example : IsUsable (delta_of raw)
parse_delta-IsUsable_example = parse_delta-IsUsable (object raw) (delta_of raw) parse_delta-raw

stored : MemoryStore
stored = (apply_delta service empty_store (some delta) episode from_success audit).0

stored-IsSound : IsSound service stored
unfolding stored
stored-IsSound =
    apply_delta-IsSound service (λ t. refl) (λ body. refl) refl (λ s. refl) empty_store (some delta)
      episode from_success audit empty_store-IsSound

-- The file has moved.
abbrev job : CleanupJob
job = record {
  service = service;
  path_exists = λ p. false;
  find_by_basename = λ p. "lib/a.py" ∷ [];
  short_term_ttl_days = 30;
  cleanup_max_scanned = 200;
  cleanup_max_edits = 1;
  on_time = λ n. true;
}

run_once-IsSound_example : IsSound service (run_once job stored audit false false).0
run_once-IsSound_example =
    run_once-IsSound job (λ t. refl) (λ body. refl) refl (λ s. refl) stored audit false false
      stored-IsSound

-- A text's instant is its length; both episodes have expired, and one may be dropped.
abbrev late_job : CleanupJob
late_job = record job { service = record service { instant = λ s. some (pos (length (codes s))) } }

abbrev old_episode : String → Fields
old_episode id = field "id" (text id) (field "expires_at" (text "old") end)

abbrev old_store : MemoryStore
old_store = record { files = (recent_path, old_episode "a" ∷ old_episode "b" ∷ []) ∷ []; log = [] }

old_store-AreApart : AreApart (recent old_store)
unfolding get get_field read
old_store-AreApart = (
  (λ other i e. elim i [
    | inl q ↦ ground (arith, eq_iff "a" "b", e, ap episode_id q)
    | inr j ↦ absurd j
  ]),
  ((λ other i. absurd i), tt),
)

run_once-bounded_example :
    (let (after, report) = run_once late_job old_store audit false false in
      (report.expired + report.remapped + report.quarantined + report.merged ≤ 1)
      × Keeps late_job audit (recent old_store) (recent after) report.expired)
run_once-bounded_example = run_once-bounded late_job old_store audit false old_store-AreApart

run_once_dry_example : (run_once job stored audit false true).0 ≡ stored
run_once_dry_example = run_once_dry job stored audit false

restore-take_snapshot_example :
    get
      (restore service stored (take_snapshot empty_store.files tier_candidates) audit).files
      pending_path
    ≡ get empty_store.files pending_path
restore-take_snapshot_example = restore-take_snapshot service empty_store stored audit pending_path
