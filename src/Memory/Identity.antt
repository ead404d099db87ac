-- ===== src/Memory/Identity.antt =====
-- memory/service.py: the stable identifier of a lesson.
use Prim.Native.Char.{code}
use wastech_orchestrator.Prelude.Chars.{occurs, occurs-concat, ne_of_occurs}
use wastech_orchestrator.Prelude.{
  true, false, ◌≡◌, refl, inl, inr, Bool-cases, eq_iff, ◌==◌, ◌&&◌, String, List, [], ◌∷◌, map,
  filter, not, if◌then◌else◌, str_eq, concat,
}
use wastech_orchestrator.Prelude.Sorted.{sorted_set}
use wastech_orchestrator.Decomposition.Parse.{is_space, is_blank}
use wastech_orchestrator.Memory.Records.{LongTermKind, kind_value}
use wastech_orchestrator.Memory.Store.{MemoryService}

unfoldable pub skip_left : String → String
skip_left String.[] = ""
skip_left (String.◌∷◌ c s) =
    let rest = skip_left s in if is_space (code c) then rest else String.◌∷◌ c s

unfoldable pub skip_right : String → String
skip_right String.[] = ""
skip_right (String.◌∷◌ c s) =
    let rest = skip_right s in if is_space (code c) && str_eq rest "" then "" else String.◌∷◌ c rest

-- p.replace("\\", "/")
unfoldable pub slashes : String → String
slashes String.[] = ""
slashes (String.◌∷◌ c s) =
    let rest = slashes s in if code c == 92 then concat "/" rest else String.◌∷◌ c rest

abbrev path_key : String → String
unfolding skip_left skip_right slashes
path_key p = slashes (skip_right (skip_left p))

-- "\n".join(...)
unfoldable pub join_lines : List String → String
join_lines [] = ""
join_lines (s ∷ []) = s
join_lines (s ∷ t ∷ ss) = concat s (concat "\n" (join_lines (t ∷ ss)))

unfoldable pub scope_key : List String → String
unfolding sorted_set join_lines path_key
scope_key paths = join_lines (sorted_set (map path_key (filter (λ p. not (is_blank p)) paths)))

-- " ".join(s.split()), after a space where the text starts with one.
unfoldable pub spaced : String → String
spaced String.[] = ""
spaced (String.◌∷◌ c s) =
    let rest = spaced s in
    if is_space (code c)
    then if str_eq (skip_left rest) "" then "" else concat " " (skip_left rest)
    else String.◌∷◌ c rest

module _ (service : MemoryService) where
  unfoldable pub normalize_subject : String → String
  unfolding skip_left spaced
  normalize_subject subject = skip_left (spaced (service.lower_text subject))

  abbrev id_basis : String → List String → String
  unfolding scope_key normalize_subject
  id_basis subject paths =
      if str_eq (scope_key paths) "" then normalize_subject subject else scope_key paths

  unfoldable pub derive_long_term_id : LongTermKind → String → List String → String
  unfolding id_basis
  derive_long_term_id kind subject paths =
      concat "ltm_"
        (service.id_digest (concat (kind_value kind) (concat ":" (id_basis subject paths))))

-- An identifier has its prefix, so it is not empty.
pub prefixed_nonempty : (s : String) → str_eq (concat "ltm_" s) "" ≡ false
unfolding occurs
prefixed_nonempty s =
    let at_l : occurs 108 (concat "ltm_" s) ≡ true = occurs-concat 108 "ltm_" s in
    let apart = ne_of_occurs 108 (concat "ltm_" s) "" at_l refl in
    elim (Bool-cases (str_eq (concat "ltm_" s) "")) [
      | inl e ↦ absurd (apart ((eq_iff (concat "ltm_" s) "").0 e))
      | inr e ↦ e
    ]
