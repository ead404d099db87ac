-- ===== src/Security/ForbiddenArgs/Spellings.antt =====
-- security/forbidden_args.py: arguments without a reason, and the two spellings of a flag with a value.
use wastech_orchestrator.Prelude.{
  ◌≡◌, ◌≢◌, refl, sym, ap, subst, ◌∙◌, ◌⊎◌, ◌↔◌, true, false, String, concat, str_eq, eq_iff,
  starts_with, contains, List, [], ◌∷◌, ◌++◌, append_nil_left, append_nil_right, arith, Bool-cases,
  inl, inr,
}
use wastech_orchestrator.Prelude.Chars.{occurs}
use wastech_orchestrator.Security.ForbiddenArgs.Partition.{
  partition-concat, partition-none, partition-cases,
}
use wastech_orchestrator.Security.ForbiddenArgs.{
  forbidden_flags, sandbox_flags, partition, peek, reasons_for, token_reasons, find_forbidden_args,
}

-- The flag is not one that bypasses the sandbox, and its value is not one that does.
pub record IsSafe (flag value : String) : Type 0 where
  pub not_dangerous : starts_with flag "--dangerously" ≡ false
  pub not_yolo : flag ≢ "--yolo"
  pub not_ignoring : flag ≢ "--ignore-rules"
  pub not_skipping : flag ≢ "--allow-dangerously-skip-permissions"
  pub sandboxed :
      (flag ≡ "--sandbox") ⊎ (flag ≡ "-s") → (value ≢ "danger-full-access") × (value ≢ "")
  pub prompts : flag ≡ "--permission-mode" → value ≢ "bypassPermissions"

eq_text : (s t : String) → s ≡ t → str_eq s t ≡ true
eq_text s t h = (eq_iff s t).1 h

ne_text : (s t : String) → s ≢ t → str_eq s t ≡ false
ne_text s t h = elim (Bool-cases (str_eq s t)) [ inl e ↦ absurd (h ((eq_iff s t).0 e)) | inr e ↦ e ]

-- What is said of a flag, at another spelling of it.
at_flag :
    (token value : String) {flag other : String}
    → flag ≡ other
    → reasons_for token flag value ≡ []
    → reasons_for token other value ≡ []
at_flag token value e h = subst (λ f. reasons_for token f value ≡ []) e h

reasons_for-IsSafe :
    (token flag value : String) → reasons_for token flag value ≡ [] → IsSafe flag value
reasons_for-IsSafe token flag value h = record {
  not_dangerous = ground (arith, h);
  not_yolo = λ e. absurd (ground (arith, at_flag token value e h));
  not_ignoring = λ e. absurd (ground (arith, at_flag token value e h));
  not_skipping = λ e. absurd (ground (arith, at_flag token value e h));
  sandboxed = λ e. elim e [
    | inl long ↦
        let there = at_flag token value long h in
        (
          λ v. ground (arith, there, eq_text value _ v),
          λ v. ground (arith, there, eq_text value _ v),
        )
    | inr short ↦
        let there = at_flag token value short h in
        (
          λ v. ground (arith, there, eq_text value _ v),
          λ v. ground (arith, there, eq_text value _ v),
        )
  ];
  prompts = λ e v. ground (arith, at_flag token value e h, eq_text value _ v);
}

IsSafe-reasons_for :
    (token flag value : String) → IsSafe flag value → reasons_for token flag value ≡ []
IsSafe-reasons_for token flag value s =
    let yolo = ne_text "--yolo" flag (λ e. s.not_yolo (sym e)) in
    let ignoring = ne_text "--ignore-rules" flag (λ e. s.not_ignoring (sym e)) in
    let skipping =
      ne_text "--allow-dangerously-skip-permissions" flag (λ e. s.not_skipping (sym e)) in
    let whole : contains forbidden_flags flag ≡ false = rw (yolo, ignoring, skipping) refl in
    elim (Bool-cases (contains sandbox_flags flag)) [
      | inl e ↦
          let (full, empty) = s.sandboxed (named e) in
          let a = ne_text value "danger-full-access" full in
          let b = ne_text value "" empty in ground (arith, s.not_dangerous, whole, e, a, b)
      | inr e ↦ elim (Bool-cases (str_eq flag "--permission-mode")) [
        | inl f ↦
            let a = ne_text value "bypassPermissions" (s.prompts ((eq_iff flag _).0 f)) in
            ground (arith, s.not_dangerous, whole, e, a)
        | inr f ↦ ground (arith, s.not_dangerous, whole, e, f)
      ]
    ]
  where
    named : contains sandbox_flags flag ≡ true → (flag ≡ "--sandbox") ⊎ (flag ≡ "-s")
    named e = elim (Bool-cases (str_eq "--sandbox" flag)) [
      | inl f ↦ inl (sym ((eq_iff "--sandbox" flag).0 f))
      | inr f ↦
          let g : str_eq "-s" flag ≡ true = ground (arith, e, f) in
          inr (sym ((eq_iff "-s" flag).0 g))
    ]

-- The argument `token` stands somewhere among the arguments, with `rest` after it.
abbrev pub At : String → List String → List String → Type 0
At token rest [] = ⊥
At token rest (x ∷ xs) = ((token ≡ x) × (rest ≡ xs)) ⊎ At token rest xs

-- The next argument, or the empty text after the last.
abbrev Next : List String → String → Type 0
Next [] value = value ≡ ""
Next (arg ∷ _) value = value ≡ arg

-- What an argument says: a flag without a `=`, and as its value what stands after the first `=` of the
-- argument, or the next argument.
abbrev pub Says : String → List String → String → String → Type 0
Says token rest flag value =
    (occurs 61 flag ≡ false)
    × ((token ≡ concat flag (concat "=" value)) ⊎ ((token ≡ flag) × Next rest value))

abbrev pub IsSafeToken : String → List String → Type 0
IsSafeToken token rest = (flag value : String) → Says token rest flag value → IsSafe flag value

Next-peek : (rest : List String) → Next rest (peek rest)
Next-peek [] = refl
Next-peek (arg ∷ rest) = refl

peek-Next : (rest : List String) (value : String) → Next rest value → peek rest ≡ value
peek-Next [] value h = sym h
peek-Next (arg ∷ rest) value h = sym h

token_reasons-inline :
    (token flag value : String) (rest : List String)
    → occurs 61 flag ≡ false
    → token ≡ concat flag (concat "=" value)
    → token_reasons token rest ≡ reasons_for token flag value
unfolding token_reasons
token_reasons-inline token flag value rest h q =
    rw (token_reasons, ap partition q ∙ partition-concat flag value h) refl

token_reasons-alone :
    (token : String) (rest : List String)
    → occurs 61 token ≡ false
    → token_reasons token rest ≡ reasons_for token token (peek rest)
unfolding token_reasons
token_reasons-alone token rest h = rw (token_reasons, partition-none token h) refl

token_reasons-IsSafeToken :
    (token : String) (rest : List String) → token_reasons token rest ≡ [] → IsSafeToken token rest
token_reasons-IsSafeToken token rest h flag value (plain, inl q) =
    reasons_for-IsSafe token flag value
      (sym (token_reasons-inline token flag value rest plain q) ∙ h)
token_reasons-IsSafeToken token rest h flag value (plain, inr (q, n)) =
    let plain' = subst (λ t. occurs 61 t ≡ false) (sym q) plain in
    let said =
      reasons_for-IsSafe token token (peek rest)
        (sym (token_reasons-alone token rest plain') ∙ h) in
    subst (λ t. IsSafe t value) q (subst (IsSafe token) (peek-Next rest value n) said)

IsSafeToken-token_reasons :
    (token : String) (rest : List String) → IsSafeToken token rest → token_reasons token rest ≡ []
IsSafeToken-token_reasons token rest safe = elim (partition-cases token) [
  | inl plain ↦
      token_reasons-alone token rest plain
      ∙ IsSafe-reasons_for token token (peek rest)
          (safe token (peek rest) (plain, inr (refl, Next-peek rest)))
  | inr (flag, value, plain, q) ↦
      token_reasons-inline token flag value rest plain q
      ∙ IsSafe-reasons_for token flag value (safe flag value (plain, inl q))
]

token_reasons_iff :
    (token : String) (rest : List String) → token_reasons token rest ≡ [] ↔ IsSafeToken token rest
token_reasons_iff token rest =
    (token_reasons-IsSafeToken token rest, IsSafeToken-token_reasons token rest)

-- No reason is found among the arguments exactly where each of them is safe, read as a flag with the value
-- after its first `=`, or else as a flag with the next argument as its value (the empty text after the last
-- one): the flag does not start with `--dangerously` and is not `--yolo`, `--ignore-rules` or
-- `--allow-dangerously-skip-permissions`; the value of `--sandbox` and of `-s` is not `danger-full-access`
-- and not empty; and the value of `--permission-mode` is not `bypassPermissions`.
pub find_forbidden_args_iff :
    (args : List String)
    → find_forbidden_args args ≡ []
      ↔ ((token : String) (rest : List String) → At token rest args → IsSafeToken token rest)
unfolding find_forbidden_args
find_forbidden_args_iff [] = ((λ h token rest i. absurd i), λ h. refl)
find_forbidden_args_iff (x ∷ xs) =
    let (safe, silent) = token_reasons_iff x xs in
    let (later, quiet) = find_forbidden_args_iff xs in
    (
      λ h token rest i. elim i [
        | inl (p, q) ↦
            subst (λ t. IsSafeToken t rest) (sym p)
              (subst (IsSafeToken x) (sym q)
                (safe (append_nil_left (token_reasons x xs) (find_forbidden_args xs) h)))
        | inr j ↦
            later (append_nil_right (token_reasons x xs) (find_forbidden_args xs) h) token rest j
      ],
      λ h.
          ap (λ l. l ++ find_forbidden_args xs) (silent (h x xs (inl (refl, refl))))
          ∙ quiet (λ token rest i. h token rest (inr i)),
    )
