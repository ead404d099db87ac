-- ===== src/Security/ForbiddenArgs.antt =====
-- security/forbidden_args.py: what may never stand among a provider's arguments.
pub mod Partition
pub mod Spellings
use Prim.Native.Char.{code}
use wastech_orchestrator.Prelude.{
  ℕ, ◌==◌, Bool, true, false, ◌||◌, ◌&&◌, String, str_eq, starts_with, contains, Option, none, some,
  or_default, List, [], ◌∷◌, ◌++◌, if◌then◌else◌,
}

pub data Reason : Type 0 where
  disables_sandbox : String → Reason
  grants_full_access : Reason
  needs_value : String → Reason
  disables_prompts : Reason

abbrev pub forbidden_flags : List String
forbidden_flags = "--yolo" ∷ "--ignore-rules" ∷ "--allow-dangerously-skip-permissions" ∷ []

abbrev pub sandbox_flags : List String
sandbox_flags = "--sandbox" ∷ "-s" ∷ []

-- `token.partition("=")`: what stands before the first `=`, and after it if there is one.
unfoldable pub partition : String → String × Option String
partition String.[] = ("", none)
partition (String.◌∷◌ c s) =
    let (flag, inline) = partition s in
    if code c == 61 then ("", some s) else (String.◌∷◌ c flag, inline)

-- `_peek(args, index + 1)`, where `rest` are the arguments after the one at `index`
abbrev pub peek : List String → String
peek [] = ""
peek (arg ∷ _) = arg

-- The reasons of a token with this flag and this value.
abbrev pub reasons_for : String → String → String → List Reason
reasons_for token flag value =
    if starts_with flag "--dangerously" || contains forbidden_flags flag
    then disables_sandbox token ∷ []
    else if contains sandbox_flags flag
    then (if str_eq value "danger-full-access"
        then grants_full_access ∷ []
        else if str_eq value ""
        then needs_value flag ∷ []
        else [])
    else if str_eq flag "--permission-mode" && str_eq value "bypassPermissions"
    then disables_prompts ∷ []
    else []

unfoldable pub token_reasons : String → List String → List Reason
unfolding partition
token_reasons token rest =
    let (flag, inline) = partition token in reasons_for token flag (or_default inline (peek rest))

unfoldable pub find_forbidden_args : List String → List Reason
unfolding token_reasons
find_forbidden_args [] = []
find_forbidden_args (token ∷ rest) = token_reasons token rest ++ find_forbidden_args rest
