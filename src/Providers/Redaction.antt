-- ===== src/Providers/Redaction.antt =====
-- providers/redaction.py: the names that bear a secret, and the walk of `redact_mapping`. `redact_text`, the
-- rewriting of one text by `re`, is a parameter.
use wastech_orchestrator.Prelude.{
  ℕ, leb, ◌==◌, Bool, ◌&&◌, ◌||◌, String, some, List, [], ◌∷◌, any, if◌then◌else◌, ◌≡◌, refl, ap,
  inl, inr, str_eq, eq_iff, Bool-cases,
}
use mathlib.Core.Option
use wastech_orchestrator.Prelude.Chars.{codes}
use wastech_orchestrator.Prelude.Json.{
  Value, text, array, object, Items, nil, cons, Fields, end, field, get_field,
}
use wastech_orchestrator.Memory.Lifecycle.{lower, same_codes}

abbrev pub redacted : String
redacted = "[REDACTED]"

abbrev pub sensitive_segments : List String
sensitive_segments =
    "token" ∷ "secret" ∷ "password" ∷ "passwd" ∷ "pwd" ∷ "passphrase" ∷ "authorization"
    ∷ "credential" ∷ "credentials" ∷ "key" ∷ "apikey" ∷ "accesskey" ∷ "privatekey" ∷ "secretkey"
    ∷ []

-- `str.lower` of one character, as far as it makes ASCII: the capital I with a dot is two.
abbrev lower_codes : List ℕ → List ℕ
lower_codes [] = []
lower_codes (c ∷ s) =
    let rest = lower_codes s in if c == 304 then 105 ∷ 775 ∷ rest else lower c ∷ rest

-- [a-z0-9]
abbrev is_segment_code : ℕ → Bool
is_segment_code c = (leb 97 c && leb c 122) || (leb 48 c && leb c 57)

-- The runs of such characters, with empty ones between the others.
unfoldable pub segments : List ℕ → List (List ℕ)
segments [] = [] ∷ []
segments (c ∷ s) = elim (segments s) [
  | [] ↦ []
  | w ∷ ws ↦ if is_segment_code c then (c ∷ w) ∷ ws else [] ∷ w ∷ ws
]

abbrev is_sensitive_segment : List ℕ → Bool
unfolding same_codes
is_sensitive_segment w = any (λ t. same_codes w (codes t)) sensitive_segments

unfoldable pub is_sensitive_key : String → Bool
unfolding segments same_codes
is_sensitive_key name = any is_sensitive_segment (segments (lower_codes (codes name)))

-- A value under a sensitive name is hidden, whatever it is.
abbrev pub hide : String → Value → Value
unfolding is_sensitive_key
hide key value = if is_sensitive_key key then text redacted else value

module _ (redact_text : String → String) where
  unfoldable mutual
    pub redact_node : Value → Value
    redact_node (text s) = text (redact_text s)
    redact_node (array items) = array (redact_items items)
    redact_node (object fields) = object (redact_mapping fields)
    redact_node value = value

    pub redact_items : Items → Items
    redact_items nil = nil
    redact_items (cons v items) = cons (redact_node v) (redact_items items)

    pub redact_mapping : Fields → Fields
    redact_mapping end = end
    redact_mapping (field k v fields) = field k (hide k (redact_node v)) (redact_mapping fields)

  -- _redact_value(key, value)
  unfoldable pub redact_value : String → Value → Value
  unfolding redact_node
  redact_value k v = hide k (redact_node v)

  pub get_field-redact_mapping :
      (fields : Fields) (key : String)
      → get_field (redact_mapping fields) key ≡ Option.map (redact_value key) (get_field fields key)
  unfolding get_field redact_mapping redact_value
  get_field-redact_mapping end key = refl
  get_field-redact_mapping (field k v fields) key = elim (Bool-cases (str_eq k key)) [
    | inl e ↦
        let same : k ≡ key = (eq_iff k key).0 e in
        rw (get_field, e) (ap (λ j. some (hide j (redact_node v))) same)
    | inr e ↦ rw (get_field, e) (get_field-redact_mapping fields key)
  ]
