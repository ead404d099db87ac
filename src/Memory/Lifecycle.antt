-- ===== src/Memory/Lifecycle.antt =====
-- memory/trust.py and memory/lifecycle.py: the trust in a record, and its promotion. A text is a list of
-- code points; `lower` is that of `str.lower`, as far as it makes letters of the tokens.
pub mod Promotion
use wastech_orchestrator.Prelude.{
  ℕ, ◌+◌, leb, ◌==◌, Bool, true, false, not, ◌&&◌, ◌||◌, String, Option, none, some, List, [], ◌∷◌,
  map, any, all, reverse, if◌then◌else◌,
}
use wastech_orchestrator.Prelude.Chars.{codes}
use wastech_orchestrator.Decomposition.Parse.{is_space}

pub data TrustLevel : Type 0 where
  repo_observed human_curated review_verified artifact_backed : TrustLevel
  agent_inferred external_untrusted : TrustLevel

-- trust in DURABLE_TRUST_LEVELS
unfoldable pub is_durable_candidate : TrustLevel → Bool
is_durable_candidate agent_inferred = false
is_durable_candidate external_untrusted = false
is_durable_candidate _ = true

-- memory/records.py, `Evidence`
pub record Evidence : Type 0 where
  pub type : String
  pub ref : String

abbrev pub external_types : List String
external_types = "web" ∷ "mcp" ∷ "url" ∷ "external" ∷ "api" ∷ []

abbrev pub operator_types : List String
operator_types = "operator" ∷ "human" ∷ "hitl" ∷ []

abbrev pub review_types : List String
review_types = "review" ∷ "fixing" ∷ []

abbrev pub repo_types : List String
repo_types = "repo" ∷ "repo_doc" ∷ "code" ∷ "config" ∷ "doc" ∷ "file" ∷ []

abbrev pub artifact_types : List String
artifact_types = "artifact" ∷ "check" ∷ "diff" ∷ "test" ∷ "plan" ∷ "commit" ∷ []

-- trust in _AUTO_PROMOTE
abbrev pub is_auto_promoted : TrustLevel → Bool
is_auto_promoted repo_observed = true
is_auto_promoted human_curated = true
is_auto_promoted review_verified = true
is_auto_promoted _ = false

-- The only other code point that becomes an ASCII letter is the Kelvin sign.
abbrev pub lower : ℕ → ℕ
lower c = if leb 65 c && leb c 90 then c + 32 else if c == 8490 then 107 else c

unfoldable pub skip_spaces : List ℕ → List ℕ
skip_spaces [] = []
skip_spaces (c ∷ s) = let rest = skip_spaces s in if is_space c then rest else c ∷ s

-- text.strip().lower()
unfoldable pub folded : String → List ℕ
unfolding skip_spaces
folded s = map lower (reverse (skip_spaces (reverse (skip_spaces (codes s)))))

unfoldable pub same_codes : List ℕ → List ℕ → Bool
same_codes [] [] = true
same_codes (a ∷ s) (b ∷ t) = a == b && same_codes s t
same_codes _ _ = false

-- The evidence is of one of these types.
unfoldable pub is_of : List String → Evidence → Bool
unfolding folded same_codes
is_of types evidence = any (λ t. same_codes (folded evidence.type) (codes t)) types

unfoldable pub assign_trust : List Evidence → TrustLevel
unfolding is_of
assign_trust evidence =
    if any (is_of external_types) evidence
    then external_untrusted
    else if any (is_of operator_types) evidence
    then human_curated
    else if any (is_of review_types) evidence
    then review_verified
    else if any (is_of repo_types) evidence
    then repo_observed
    else if any (is_of artifact_types) evidence
    then artifact_backed
    else agent_inferred

-- `path_exists`, where there is one
unfoldable pub assign_entity_trust : List String → Option (String → Bool) → TrustLevel
assign_entity_trust [] path_exists = agent_inferred
assign_entity_trust (p ∷ paths) none = repo_observed
assign_entity_trust (p ∷ paths) (some exists) =
    if not (all exists (p ∷ paths)) then agent_inferred else repo_observed

unfoldable pub should_promote : TrustLevel → Bool → ℕ → ℕ → Bool → Bool → Bool → Bool
unfolding is_durable_candidate
should_promote trust has_evidence recurrence_tasks min_tasks explained_failure stable_hotspot
      has_contradiction =
    if not (is_durable_candidate trust) || (not has_evidence || has_contradiction)
    then false
    else leb min_tasks recurrence_tasks
      || (is_auto_promoted trust || (explained_failure || stable_hotspot))
