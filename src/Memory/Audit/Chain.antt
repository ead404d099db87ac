-- ===== src/Memory/Audit/Chain.antt =====
-- memory/audit.py: the hash chain of the audit log.
use wastech_orchestrator.Prelude.{
  true, ◌&&◌, String, Option, some, List, [], ◌∷◌, ◌++◌, eq_iff, eq_refl, ◌≡◌, refl, sym, ap, ◌∙◌,
  arith,
}
use wastech_orchestrator.Prelude.Json.{Value, text, Fields, get_field, drop_field, put_field}
use wastech_orchestrator.Providers.Redaction.{redact_mapping, is_sensitive_key, segments}
use wastech_orchestrator.Memory.Lifecycle.{same_codes}
use wastech_orchestrator.Memory.Audit.{
  AuditAction, AuditContext, hash_of, last_hash, is_text, audit_body, hashed, record_row, is_link,
  verify_from, verify_chain,
}

-- The hash that a row after these continues from.
unfoldable pub last_from : String → List Fields → String
unfolding hash_of
last_from prev [] = prev
last_from prev (row ∷ rows) = last_from (hash_of row) rows

pub last_hash-last_from : (rows : List Fields) → last_hash rows ≡ last_from "" rows
unfolding last_hash last_from
last_hash-last_from [] = refl
last_hash-last_from (row ∷ []) = refl
last_hash-last_from (row ∷ next ∷ rows) = last_hash-last_from (next ∷ rows)

pub last_from-append :
    (prev : String) (rows : List Fields) (row : Fields)
    → last_from prev (rows ++ (row ∷ [])) ≡ hash_of row
unfolding hash_of last_from
last_from-append prev [] row = refl
last_from-append prev (r ∷ rows) row = last_from-append (hash_of r) rows row

pub is_text-some :
    (value : Option Value) (s : String) → is_text value s ≡ true → value ≡ some (text s)
is_text-some (some (text t)) s h = ap (λ u. some (text u)) ((eq_iff t s).0 h)
is_text-some _ s h = absurd (ground arith)

module _ (digest : Fields → String) where
  pub verify_from-append :
      (prev : String) (rows : List Fields) (row : Fields)
      → verify_from digest prev (rows ++ (row ∷ []))
        ≡ (verify_from digest prev rows && is_link digest (last_from prev rows) row)
  unfolding verify_from last_from
  verify_from-append prev [] row = ground arith
  verify_from-append prev (r ∷ rows) row = ground (arith, verify_from-append (hash_of r) rows row)

  -- A link has the hash of its body and names the hash before it.
  pub link_fields :
      (prev : String) (row : Fields)
      → is_link digest prev row ≡ true
      → (get_field row "prev_hash" ≡ some (text prev))
        × (get_field row "row_hash" ≡ some (text (digest (drop_field row "row_hash"))))
  unfolding is_link
  link_fields prev row h = (
    is_text-some (get_field row "prev_hash") prev (ground (arith, h)),
    is_text-some (get_field row "row_hash") (digest (drop_field row "row_hash"))
        (ground (arith, h)),
  )

  pub hash_of-link :
      (prev : String) (row : Fields)
      → is_link digest prev row ≡ true
      → hash_of row ≡ digest (drop_field row "row_hash")
  unfolding hash_of
  hash_of-link prev row h = rw (hash_of, (link_fields prev row h).1) refl

  is_link-fields :
      (prev : String) (row : Fields)
      → get_field row "prev_hash" ≡ some (text prev)
      → get_field row "row_hash" ≡ some (text (digest (drop_field row "row_hash")))
      → is_link digest prev row ≡ true
  unfolding is_link
  is_link-fields prev row p h =
      rw (is_link, p, h)
        (ground (arith, eq_refl prev, eq_refl (digest (drop_field row "row_hash"))))

module _ (redact_text : String → String) (digest : Fields → String)
    (keeps_digest : (body : Fields) → redact_text (digest body) ≡ digest body) where
  last_from-kept :
      (prev : String) (rows : List Fields)
      → redact_text prev ≡ prev
      → verify_from digest prev rows ≡ true
      → redact_text (last_from prev rows) ≡ last_from prev rows
  unfolding last_from verify_from
  last_from-kept prev [] kept h = kept
  last_from-kept prev (row ∷ rows) kept h =
      let linked : is_link digest prev row ≡ true = ground (arith, h) in
      let e = hash_of-link digest prev row linked in
      last_from-kept (hash_of row) rows
        (ap redact_text e ∙ keeps_digest (drop_field row "row_hash") ∙ sym e) (ground (arith, h))

  new_link :
      (existing : List Fields) (action : AuditAction) (affected_ids : List String)
      (pre_hash post_hash : Option String) (context : AuditContext)
      → redact_text (last_hash existing) ≡ last_hash existing
      → is_link digest (last_hash existing) (
          hashed digest
            (audit_body redact_text existing action affected_ids pre_hash post_hash context))
        ≡ true
  unfolding hashed audit_body redact_mapping get_field put_field drop_field is_sensitive_key
      segments same_codes hash_of
  new_link existing action affected_ids pre_hash post_hash context kept =
      let body = audit_body redact_text existing action affected_ids pre_hash post_hash context in
      is_link-fields digest (last_hash existing) (hashed digest body) (ap (λ s. some (text s)) kept)
        refl

  -- Where redaction leaves the hashes and the empty text alone, a log that verifies still does with the
  -- row that `record` adds.
  pub record_row-verify_chain :
      redact_text "" ≡ ""
      → (existing : List Fields) (action : AuditAction) (affected_ids : List String)
        (pre_hash post_hash : Option String) (context : AuditContext)
      → verify_chain digest existing ≡ true
      → verify_chain digest
          (record_row redact_text digest existing action affected_ids pre_hash post_hash context)
        ≡ true
  unfolding verify_chain record_row
  record_row-verify_chain kept existing action affected_ids pre_hash post_hash context h =
      let body = audit_body redact_text existing action affected_ids pre_hash post_hash context in
      let same = last_hash-last_from existing in
      let last : redact_text (last_hash existing) ≡ last_hash existing =
        rw same (last_from-kept "" existing kept h) in
      let link = new_link existing action affected_ids pre_hash post_hash context last in
      ground (
        arith,
        h,
        verify_from-append digest "" existing (hashed digest body),
        ap (λ s. is_link digest s (hashed digest body)) same,
        link,
      )
