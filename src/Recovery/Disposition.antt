-- ===== src/Recovery/Disposition.antt =====
-- core/infra_disposition.py: the terminal that an exhausted stage earns.
use wastech_orchestrator.Prelude.{
  ℕ, ◌≤◌, ◌≡◌, refl, Bool, false, ◌||◌, Option, none, some, List, [], ◌∷◌, ◌++◌, any, arith,
  if◌then◌else◌,
}
use wastech_orchestrator.Providers.Base.{
  ErrorClass, containment_unverified, capability_unavailable, cancelled, same_class, in_classes,
  park_eligible,
}

abbrev pub containment_manual_classes : List ErrorClass
containment_manual_classes = containment_unverified ∷ capability_unavailable ∷ []

pub data InfraDisposition : Type 0 where
  manual park terminal : InfraDisposition

abbrev pub any_in : List ErrorClass → List ErrorClass → Bool
any_in classes set = any (λ c. in_classes c set) classes

abbrev pub is_cancelled : Option ErrorClass → Bool
is_cancelled none = false
is_cancelled (some c) = same_class c cancelled

unfoldable pub classify_exhaustion : List ErrorClass → Option ErrorClass → InfraDisposition
unfolding in_classes same_class
classify_exhaustion classes representative =
    if any_in classes containment_manual_classes
    then manual
    else if is_cancelled representative
    then park
    else if any_in classes park_eligible
    then park
    else terminal

-- How cautious a disposition is.
abbrev pub caution : InfraDisposition → ℕ
caution manual = 2
caution park = 1
caution terminal = 0

any_in-append :
    (xs ys set : List ErrorClass) → any_in (xs ++ ys) set ≡ (any_in xs set || any_in ys set)
any_in-append [] ys set = refl
any_in-append (x ∷ xs) ys set = ground (arith, any_in-append xs ys set)

-- Further failures, before or after, never make the disposition less cautious.
pub classify_exhaustion_mono :
    (before classes after : List ErrorClass) (representative : Option ErrorClass)
    → caution (classify_exhaustion classes representative)
      ≤ caution (classify_exhaustion (before ++ (classes ++ after)) representative)
unfolding classify_exhaustion
classify_exhaustion_mono before classes after r = ground (
  arith,
  any_in-append before (classes ++ after) containment_manual_classes,
  any_in-append classes after containment_manual_classes,
  any_in-append before (classes ++ after) park_eligible,
  any_in-append classes after park_eligible,
)
