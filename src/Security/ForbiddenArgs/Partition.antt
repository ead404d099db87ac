-- ===== src/Security/ForbiddenArgs/Partition.antt =====
-- security/forbidden_args.py: the text before and after the first `=` of an argument.
use Prim.Native.Char.{code}
use text.Mathlib.TextEquality.{Char-path}
use text.Mathlib.TextLemmas.{nil-append, cons-append}
use wastech_orchestrator.Prelude.{
  ◌==◌, ◌≡◌, refl, sym, ap, ◌∙◌, ◌⊎◌, false, String, concat, none, some, arith, Bool-cases, inl,
  inr,
}
use wastech_orchestrator.Prelude.Chars.{occurs}
use wastech_orchestrator.Security.ForbiddenArgs.{partition}

pub partition-concat :
    (flag value : String)
    → occurs 61 flag ≡ false
    → partition (concat flag (concat "=" value)) ≡ (flag, some value)
unfolding partition occurs
partition-concat String.[] value h =
    ap partition (nil-append (concat "=" value))
    ∙ ap partition (cons-append "=" "" value)
    ∙ ap (λ (v : String). ("", some v)) (nil-append value)
partition-concat (String.◌∷◌ c flag) value h =
    ground
      (arith, partition-concat flag value, ap partition (cons-append c flag (concat "=" value)))

pub partition-none : (flag : String) → occurs 61 flag ≡ false → partition flag ≡ (flag, none)
unfolding partition occurs
partition-none String.[] h = refl
partition-none (String.◌∷◌ c flag) h = ground (arith, h, partition-none flag)

-- A text has no `=`, or is a text without one, a `=` and the rest.
pub partition-cases :
    (s : String)
    → (occurs 61 s ≡ false)
      ⊎ ((flag : String) × (value : String) × (occurs 61 flag ≡ false)
          × (s ≡ concat flag (concat "=" value)))
unfolding occurs
partition-cases String.[] = inl refl
partition-cases (String.◌∷◌ c s) = elim (Bool-cases (code c == 61)) [
  | inl e ↦
      let same : c ≡ "=" = Char-path c "=" (ground (arith, e)) in
      inr (
        "",
        s,
        refl,
        ap (λ x. String.◌∷◌ x s) same
            ∙ ap (String.◌∷◌ "=") (sym (nil-append s))
            ∙ sym (cons-append "=" "" s)
            ∙ sym (nil-append (concat "=" s)),
      )
  | inr e ↦ elim (partition-cases s) [
    | inl none_there ↦ inl (ground (arith, e, none_there))
    | inr (flag, value, h, q) ↦ inr (
      String.◌∷◌ c flag,
      value,
      ground (arith, e, h),
      ap (String.◌∷◌ c) q ∙ sym (cons-append c flag (concat "=" value)),
    )
  ]
]
