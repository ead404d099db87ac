-- ===== src/Memory/Audit/Tamper.antt =====
-- memory/audit.py: what a log that verifies says of the rows before its last.
use wastech_orchestrator.Prelude.{
  In, In-append_left, In-append_right, ℕ, zero, suc, ◌≤◌, true, ◌&&◌, String, some, List, [], ◌∷◌,
  ◌++◌, length, str_eq, eq_iff, ◌≡◌, ◌≢◌, refl, sym, ap, ◌∙◌, subst, ◌⊎◌, inl, inr, arith,
  Bool-cases, some_inj, length-append,
}
use wastech_orchestrator.Prelude.Json.{text, Fields, get_field, drop_field, get_field-drop_field}
use wastech_orchestrator.Memory.Audit.{hash_of, last_hash, is_link, verify_from, verify_chain}
use wastech_orchestrator.Memory.Audit.Chain.{
  last_from, last_hash-last_from, last_from-append, verify_from-append, link_fields, hash_of-link,
}

-- The objects have the same value under each key.
abbrev pub SameRow : Fields → Fields → Type 0
SameRow row other = (key : String) → get_field row key ≡ get_field other key

abbrev pub SameLog : List Fields → List Fields → Type 0
SameLog [] [] = Unit
SameLog (row ∷ rows) (other ∷ others) = SameRow row other × SameLog rows others
SameLog _ _ = ⊥

SameLog-append :
    (rows others : List Fields) (row other : Fields)
    → SameLog rows others
    → SameRow row other
    → SameLog (rows ++ (row ∷ [])) (others ++ (other ∷ []))
SameLog-append [] [] row other h same = (same, tt)
SameLog-append (r ∷ rows) (o ∷ others) row other h same =
    (h.0, SameLog-append rows others row other h.1 same)
SameLog-append [] (o ∷ others) row other h same = absurd h
SameLog-append (r ∷ rows) [] row other h same = absurd h

-- A list is empty, or has a last item.
abbrev Snoc : List Fields → Type 0
Snoc rows = (rows ≡ []) ⊎ ((front : List Fields) × (row : Fields) × (rows ≡ front ++ (row ∷ [])))

snoc : (rows : List Fields) → Snoc rows
snoc [] = inl refl
snoc (row ∷ rows) = elim (snoc rows) [
  | inl e ↦ inr ([], row, ap (λ r. row ∷ r) e)
  | inr (front, last, e) ↦ inr (row ∷ front, last, ap (λ r. row ∷ r) e)
]

text_inj : (s t : String) → text s ≡ text t → s ≡ t
text_inj s t e = cc

-- The hash tells a row of the one log from a row of the other that differs under some key.
abbrev pub Distinguishes : (Fields → String) → List Fields → List Fields → Type 0
Distinguishes digest rows others =
    (row other : Fields)
    → In row rows
    → In other others
    → digest (drop_field row "row_hash") ≡ digest (drop_field other "row_hash")
    → SameRow (drop_field row "row_hash") (drop_field other "row_hash")

module _ (digest : Fields → String) (nonempty : (body : Fields) → digest body ≢ "") where
  Distinguishes-front :
      (rows others front before : List Fields) (row other : Fields)
      → rows ≡ front ++ (row ∷ [])
      → others ≡ before ++ (other ∷ [])
      → Distinguishes digest rows others
      → Distinguishes digest front before
  Distinguishes-front rows others front before row other p q told r o i j =
      told r o (subst (In r) (sym p) (In-append_left r front (row ∷ []) i))
        (subst (In o) (sym q) (In-append_left o before (other ∷ []) j))

  Distinguishes-last :
      (rows others front before : List Fields) (row other : Fields)
      → rows ≡ front ++ (row ∷ [])
      → others ≡ before ++ (other ∷ [])
      → Distinguishes digest rows others
      → Distinguishes digest (row ∷ []) (other ∷ [])
  Distinguishes-last rows others front before row other p q told r o i j =
      told r o (subst (In r) (sym p) (In-append_right r front (row ∷ []) i))
        (subst (In o) (sym q) (In-append_right o before (other ∷ []) j))

  same_link :
      (prev last : String) (row other : Fields)
      → Distinguishes digest (row ∷ []) (other ∷ [])
      → is_link digest prev row ≡ true
      → is_link digest last other ≡ true
      → hash_of row ≡ hash_of other
      → (prev ≡ last) × SameRow row other
  same_link prev last row other told h k e =
      let (p, d) = link_fields digest prev row h in
      let (q, c) = link_fields digest last other k in
      let hashes : digest (drop_field row "row_hash") ≡ digest (drop_field other "row_hash") =
        sym (hash_of-link digest prev row h) ∙ e ∙ hash_of-link digest last other k in
      let same = told row other (inl refl) (inl refl) hashes in
      let names : text prev ≡ text last = some_inj (
        sym p
        ∙ sym (get_field-drop_field row "row_hash" "prev_hash")
        ∙ same "prev_hash"
        ∙ get_field-drop_field other "row_hash" "prev_hash"
        ∙ q) in
      (
        text_inj prev last names,
        λ key. elim (Bool-cases (str_eq "row_hash" key)) [
          | inl at ↦
              let here : "row_hash" ≡ key = (eq_iff "row_hash" key).0 at in
              subst (λ k. get_field row k ≡ get_field other k) here
                (d ∙ ap (λ t. some (text t)) hashes ∙ sym c)
          | inr away ↦ cc (
            get_field-drop_field row "row_hash" key,
            get_field-drop_field other "row_hash" key,
            same key,
            away,
          )
        ],
      )

  -- What the log's last row gives.
  last_row :
      (rows front : List Fields) (row : Fields)
      → rows ≡ front ++ (row ∷ [])
      → verify_from digest "" rows ≡ true
      → (is_link digest (last_from "" front) row ≡ true)
        × (verify_from digest "" front ≡ true)
        × (last_from "" rows ≡ hash_of row)
  last_row rows front row e h =
      let both : (verify_from digest "" front && is_link digest (last_from "" front) row) ≡ true =
        sym (verify_from-append digest "" front row) ∙ sym (ap (verify_from digest "") e) ∙ h in
      (
        ground (arith, both),
        ground (arith, both),
        ap (last_from "") e ∙ last_from-append "" front row,
      )

  hash_of_nonempty :
      (rows front : List Fields) (row : Fields)
      → rows ≡ front ++ (row ∷ [])
      → verify_from digest "" rows ≡ true
      → last_from "" rows ≢ ""
  hash_of_nonempty rows front row e h empty =
      let (link, _, last) = last_row rows front row e h in
      nonempty (drop_field row "row_hash")
        (sym (hash_of-link digest (last_from "" front) row link) ∙ sym last ∙ empty)

  -- Two logs, the first of at most `bound` rows.
  SameLog-last_from :
      (bound : ℕ) (rows others : List Fields)
      → length rows ≤ bound
      → Distinguishes digest rows others
      → verify_from digest "" rows ≡ true
      → verify_from digest "" others ≡ true
      → last_from "" rows ≡ last_from "" others
      → SameLog rows others
  unfolding last_from
  SameLog-last_from zero [] others small told h k e = elim (snoc others) [
    | inl q ↦ rw q tt
    | inr (before, other, q) ↦ absurd (hash_of_nonempty others before other q k (sym e))
  ]
  SameLog-last_from zero (row ∷ rows) others small told h k e = absurd (ground arith)
  SameLog-last_from (suc bound) rows others small told h k e = elim (snoc rows) [
    | inl p ↦ elim (snoc others) [
      | inl q ↦ rw (p, q) tt
      | inr (before, other, q) ↦
          absurd (hash_of_nonempty others before other q k (sym e ∙ ap (last_from "") p))
    ]
    | inr (front, row, p) ↦ elim (snoc others) [
      | inl q ↦ absurd (hash_of_nonempty rows front row p h (e ∙ ap (last_from "") q))
      | inr (before, other, q) ↦
          let (link, earlier, last) = last_row rows front row p h in
          let (link', earlier', last') = last_row others before other q k in
          let (names, same) =
            same_link (last_from "" front) (last_from "" before) row other
              (Distinguishes-last rows others front before row other p q told) link link'
              (sym last ∙ e ∙ last') in
          let shorter : length front ≤ bound =
            ground (arith, ap length p, length-append front (row ∷ [])) in
          rw (p, q)
            (SameLog-append front before row other
              (SameLog-last_from bound front before shorter
                (Distinguishes-front rows others front before row other p q told) earlier earlier'
                names)
              same)
    ]
  ]

  -- Where the hash is never empty and tells each row of the one log from the rows of the other that differ
  -- under some key, two logs that verify and end in the same hash have the same rows.
  pub verify_chain-SameLog :
      (rows others : List Fields)
      → Distinguishes digest rows others
      → verify_chain digest rows ≡ true
      → verify_chain digest others ≡ true
      → last_hash rows ≡ last_hash others
      → SameLog rows others
  unfolding verify_chain
  verify_chain-SameLog rows others told h k e =
      SameLog-last_from (length rows) rows others (omega arith) told h k
        (sym (last_hash-last_from rows) ∙ e ∙ last_hash-last_from others)
