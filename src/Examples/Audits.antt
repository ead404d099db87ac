-- ===== src/Examples/Audits.antt =====
-- The theorems on the audit log at a log of two rows.
use wastech_orchestrator.Prelude.{
  ◌≡◌, refl, sym, ap, ◌∙◌, ◌≢◌, inl, inr, true, String, none, [], ◌∷◌, concat, eq_iff, arith,
}
use wastech_orchestrator.Prelude.Chars.{occurs, occurs-concat, ne_of_occurs}
use wastech_orchestrator.Prelude.Json.{Fields, get_field, drop_field, put_field}
use wastech_orchestrator.Providers.Redaction.{redact_mapping, is_sensitive_key, segments}
use wastech_orchestrator.Memory.Lifecycle.{same_codes}
use wastech_orchestrator.Memory.Audit.{
  append, verify_from, verify_chain, last_hash, is_link, hashed, audit_body, padded, hash_of,
}
use wastech_orchestrator.Memory.Audit.Tamper.{SameLog, Distinguishes, verify_chain-SameLog}
use wastech_orchestrator.Examples.Memories.{text_or_empty, id_hash, audit}

-- Two rows of a log.
row0 : Fields
unfolding hashed audit_body
row0 = hashed id_hash (audit_body (λ s. s) [] append ("ep1" ∷ []) none none audit)

row1 : Fields
unfolding hashed audit_body
row1 = hashed id_hash (audit_body (λ s. s) (row0 ∷ []) append ("ep2" ∷ []) none none audit)

abbrev body : Fields → Fields
unfolding drop_field
body row = drop_field row "row_hash"

Distinguishes-pair :
    (digest : Fields → String) (a b : Fields)
    → (digest (body a) ≡ digest (body b) → ⊥)
    → Distinguishes digest (a ∷ b ∷ []) (a ∷ b ∷ [])
unfolding drop_field body
Distinguishes-pair digest a b apart row other (inl p) (inl q) e key =
    ap (λ r. get_field (body r) key) (p ∙ sym q)
Distinguishes-pair digest a b apart row other (inr (inl p)) (inr (inl q)) e key =
    ap (λ r. get_field (body r) key) (p ∙ sym q)
Distinguishes-pair digest a b apart row other (inl p) (inr (inl q)) e key =
    absurd (apart (ap (λ r. digest (body r)) (sym p) ∙ e ∙ ap (λ r. digest (body r)) q))
Distinguishes-pair digest a b apart row other (inr (inl p)) (inl q) e key =
    absurd (apart (ap (λ r. digest (body r)) (sym q) ∙ sym e ∙ ap (λ r. digest (body r)) p))
Distinguishes-pair digest a b apart row other (inr (inr i)) j e key = absurd i
Distinguishes-pair digest a b apart row other i (inr (inr j)) e key = absurd j

rows-apart : id_hash (body row0) ≡ id_hash (body row1) → ⊥
unfolding id_hash get_field drop_field row0 row1 redact_mapping is_sensitive_key segments same_codes
    padded put_field hash_of last_hash
rows-apart e = ground (arith, (eq_iff (id_hash (body row0)) (id_hash (body row1))).1 e)

id_hash-nonempty : (row : Fields) → id_hash row ≢ ""
unfolding id_hash occurs
id_hash-nonempty row =
    let s = text_or_empty (get_field row "id") in
    ne_of_occurs 104 (concat "h" s) "" (occurs-concat 104 "h" s) refl

two_rows-verify_chain : verify_chain id_hash (row0 ∷ row1 ∷ []) ≡ true
unfolding verify_chain verify_from is_link id_hash get_field drop_field row0 row1 redact_mapping
    is_sensitive_key segments same_codes padded put_field hash_of last_hash
two_rows-verify_chain = refl

verify_chain-SameLog_example : SameLog (row0 ∷ row1 ∷ []) (row0 ∷ row1 ∷ [])
verify_chain-SameLog_example =
    verify_chain-SameLog id_hash id_hash-nonempty (row0 ∷ row1 ∷ []) (row0 ∷ row1 ∷ [])
      (Distinguishes-pair id_hash row0 row1 rows-apart) two_rows-verify_chain two_rows-verify_chain
      refl
