-- ===== src/Memory/Delta/Usable.antt =====
-- memory/delta.py: what the parser lets through.
use wastech_orchestrator.Prelude.{
  false, String, Option, none, some, List, ◌∷◌, In, ◌≡◌, ◌≢◌, refl, sym, subst, inl, inr, arith,
  Bool-cases, Option-cases, some_inj,
}
use wastech_orchestrator.Prelude.Json.{Value, text, array, object, Items, nil, cons, get_field}
use wastech_orchestrator.Decomposition.Parse.{is_blank, ◌>>=◌}
use wastech_orchestrator.Memory.Lifecycle.{Evidence}
use wastech_orchestrator.Memory.Records.{LongTermKind, failure}
use wastech_orchestrator.Memory.Ingest.{
  CandidateLesson, CandidateFailure, CandidateEntity, CandidateDelta,
}
use wastech_orchestrator.Memory.Delta.{
  lesson_of, failure_of, entity_of, evidence_of, nonempty_str, parsed_items, parse_list,
  parse_evidence_item, parse_evidence, lesson_kind, parse_lesson, parse_failure, parse_entity,
  is_empty, delta_of, parse_delta,
}

abbrev pub IsFilled : String → Type 0
IsFilled s = is_blank s ≡ false

-- Evidence that has a type and a pointer.
abbrev pub AreFilled : List Evidence → Type 0
AreFilled evidence = (e : Evidence) → In e evidence → IsFilled e.type × IsFilled e.ref

abbrev pub IsUsableLesson : CandidateLesson → Type 0
IsUsableLesson c =
    (c.kind ≢ failure) × IsFilled c.subject × IsFilled c.statement × AreFilled c.evidence

abbrev pub IsUsableFailure : CandidateFailure → Type 0
IsUsableFailure c = IsFilled c.signature × AreFilled c.evidence

abbrev pub IsUsableEntity : CandidateEntity → Type 0
IsUsableEntity c = IsFilled c.entity_id × IsFilled c.entity_type

pub record IsUsable (delta : CandidateDelta) : Type 0 where
  pub nonempty : is_empty delta ≡ false
  pub lessons : (c : CandidateLesson) → In c delta.lessons → IsUsableLesson c
  pub failures : (c : CandidateFailure) → In c delta.failures → IsUsableFailure c
  pub entities : (c : CandidateEntity) → In c delta.entities → IsUsableEntity c

-- What each entry that is kept has, each member of the list has.
module _ {T : Type 0} (parse_one : Value → Option T) (P : T → Type 0)
    (kept : (v : Value) (t : T) → parse_one v ≡ some t → P t) where
  parsed_items-In : (items : Items) (t : T) → In t (parsed_items parse_one items) → P t
  parsed_items-In nil t i = absurd i
  parsed_items-In (cons v items) t i = elim (Option-cases (parse_one v)) [
    | inl e ↦
        let same : parsed_items parse_one (cons v items) ≡ parsed_items parse_one items =
          rw (parsed_items, e) refl in
        parsed_items-In items t (subst (In t) same i)
    | inr (u, e) ↦
        let same : parsed_items parse_one (cons v items) ≡ u ∷ parsed_items parse_one items =
          rw (parsed_items, e) refl in
        let j : In t (u ∷ parsed_items parse_one items) = subst (In t) same i in
        elim j [ inl q ↦ subst P (sym q) (kept v u e) | inr k ↦ parsed_items-In items t k ]
  ]

  parse_list-In : (value : Option Value) (t : T) → In t (parse_list parse_one value) → P t
  parse_list-In (some (array items)) t i = parsed_items-In items t i
  parse_list-In _ t i = absurd i

nonempty_str-IsFilled : (v : Option Value) (s : String) → nonempty_str v ≡ some s → IsFilled s
nonempty_str-IsFilled (some (text t)) s e = elim (Bool-cases (is_blank t)) [
  | inl b ↦ absurd (let h = rw b at e in ground (arith, h))
  | inr b ↦ subst IsFilled (some_inj (rw b at e)) b
]
nonempty_str-IsFilled _ s e = absurd (ground arith)

lesson_kind-failure :
    (s : String) (kind : LongTermKind) → lesson_kind s ≡ some kind → kind ≢ failure
unfolding lesson_kind
lesson_kind-failure s kind e q = ground (arith, e, q)

-- A chain that gives a result had a first result.
bind-some :
    {A B : Type 0} (o : Option A) (f : A → Option B) (b : B)
    → (o >>= f) ≡ some b
    → (a : A) × (o ≡ some a) × (f a ≡ some b)
bind-some none f b h = absurd (ground arith)
bind-some (some a) f b h = (a, refl, h)

parse_evidence_item-IsFilled :
    (v : Value) (e : Evidence) → parse_evidence_item v ≡ some e → IsFilled e.type × IsFilled e.ref
unfolding parse_evidence_item evidence_of
parse_evidence_item-IsFilled (object raw) e h =
    let (kind, k, rest) = bind-some (nonempty_str (get_field raw "type")) _ e h in
    let (ref, r, last) = bind-some (nonempty_str (get_field raw "ref")) _ e rest in
    subst (λ (x : Evidence). IsFilled x.type × IsFilled x.ref) (some_inj last)
      (
        nonempty_str-IsFilled (get_field raw "type") kind k,
        nonempty_str-IsFilled (get_field raw "ref") ref r,
      )
parse_evidence_item-IsFilled _ e h = absurd (ground arith)

parse_evidence-AreFilled : (v : Option Value) → AreFilled (parse_evidence v)
unfolding parse_evidence
parse_evidence-AreFilled v =
    parse_list-In parse_evidence_item (λ e. IsFilled e.type × IsFilled e.ref)
      parse_evidence_item-IsFilled v

parse_lesson-IsUsableLesson :
    (v : Value) (c : CandidateLesson) → parse_lesson v ≡ some c → IsUsableLesson c
unfolding parse_lesson lesson_of
parse_lesson-IsUsableLesson (object raw) c h =
    let (kind_raw, _, after) = bind-some (nonempty_str (get_field raw "kind")) _ c h in
    let (subject, s, then) = bind-some (nonempty_str (get_field raw "subject")) _ c after in
    let (statement, t, rest) = bind-some (nonempty_str (get_field raw "statement")) _ c then in
    let (kind, k, last) = bind-some (lesson_kind kind_raw) _ c rest in
    subst IsUsableLesson (some_inj last) (
      lesson_kind-failure kind_raw kind k,
      nonempty_str-IsFilled (get_field raw "subject") subject s,
      nonempty_str-IsFilled (get_field raw "statement") statement t,
      parse_evidence-AreFilled (get_field raw "evidence"),
    )
parse_lesson-IsUsableLesson _ c h = absurd (ground arith)

parse_failure-IsUsableFailure :
    (v : Value) (c : CandidateFailure) → parse_failure v ≡ some c → IsUsableFailure c
unfolding parse_failure failure_of
parse_failure-IsUsableFailure (object raw) c h =
    let (signature, s, last) = bind-some (nonempty_str (get_field raw "signature")) _ c h in
    subst IsUsableFailure (some_inj last) (
      nonempty_str-IsFilled (get_field raw "signature") signature s,
      parse_evidence-AreFilled (get_field raw "evidence"),
    )
parse_failure-IsUsableFailure _ c h = absurd (ground arith)

parse_entity-IsUsableEntity :
    (v : Value) (c : CandidateEntity) → parse_entity v ≡ some c → IsUsableEntity c
unfolding parse_entity entity_of
parse_entity-IsUsableEntity (object raw) c h =
    let (entity_id, i, rest) = bind-some (nonempty_str (get_field raw "entity_id")) _ c h in
    let (entity_type, t, last) = bind-some (nonempty_str (get_field raw "type")) _ c rest in
    subst IsUsableEntity (some_inj last) (
      nonempty_str-IsFilled (get_field raw "entity_id") entity_id i,
      nonempty_str-IsFilled (get_field raw "type") entity_type t,
    )
parse_entity-IsUsableEntity _ c h = absurd (ground arith)

-- A delta that the parser lets through has a candidate; no lesson of it is a failure; and every text that
-- its candidates need, their evidence's type and pointer included, is more than blanks.
pub parse_delta-IsUsable :
    (raw : Value) (delta : CandidateDelta) → parse_delta raw ≡ some delta → IsUsable delta
unfolding parse_delta delta_of
parse_delta-IsUsable (object raw) delta h = elim (Bool-cases (is_empty (delta_of raw))) [
  | inl e ↦ absurd (let g = rw (parse_delta, e) at h in ground (arith, g))
  | inr e ↦ subst IsUsable (some_inj (rw (parse_delta, e) at h)) (record {
    nonempty = e;
    lessons =
        parse_list-In parse_lesson IsUsableLesson parse_lesson-IsUsableLesson
          (get_field raw "lessons");
    failures =
        parse_list-In parse_failure IsUsableFailure parse_failure-IsUsableFailure
          (get_field raw "failures");
    entities =
        parse_list-In parse_entity IsUsableEntity parse_entity-IsUsableEntity
          (get_field raw "entities");
  })
]
parse_delta-IsUsable _ delta h = absurd (ground arith)
