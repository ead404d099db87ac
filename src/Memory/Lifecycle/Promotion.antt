-- ===== src/Memory/Lifecycle/Promotion.antt =====
-- memory/lifecycle.py: the promotion of a record, and its grounds.
use wastech_orchestrator.Prelude.{
  any-In, In-none, ℕ, leb, ◌≤◌, leb→le, ◌≡◌, ◌⊎◌, inl, inr, Bool, true, false, String, List, any,
  In, arith, Bool-cases,
}
use wastech_orchestrator.Memory.Lifecycle.{
  Evidence, external_types, operator_types, review_types, repo_types, artifact_types,
  is_durable_candidate, is_of, assign_trust, should_promote,
}

abbrev pub HasType : List String → List Evidence → Type 0
HasType types evidence = (e : Evidence) × In e evidence × (is_of types e ≡ true)

-- Some evidence is of a type that an operator, a review or the repository gives.
abbrev pub IsFirm : List Evidence → Type 0
IsFirm evidence =
    HasType operator_types evidence ⊎ (HasType review_types evidence ⊎ HasType repo_types evidence)

pub record IsGrounded (evidence : List Evidence) (recurrence_tasks min_tasks : ℕ)
    (explained stable : Bool) : Type 0 where
  pub no_external : (e : Evidence) → In e evidence → is_of external_types e ≡ false
  pub grounds :
      IsFirm evidence
      ⊎ (HasType artifact_types evidence
          × ((min_tasks ≤ recurrence_tasks) ⊎ ((explained ≡ true) ⊎ (stable ≡ true))))

-- A record that is promoted with the trust that its evidence gives it has no external evidence, no
-- contradiction, and evidence of an operator, of a review or of the repository; or else of an artifact, and
-- then it has recurred often enough, or explains a failure, or is a stable hotspot.
pub should_promote-IsGrounded :
    (evidence : List Evidence) (has_evidence : Bool) (recurrence_tasks min_tasks : ℕ)
    (explained stable contradiction : Bool)
    → should_promote
        (assign_trust evidence)
        has_evidence
        recurrence_tasks
        min_tasks
        explained
        stable
        contradiction
      ≡ true
    → IsGrounded evidence recurrence_tasks min_tasks explained stable
      × (has_evidence ≡ true)
      × (contradiction ≡ false)
unfolding should_promote assign_trust is_durable_candidate
should_promote-IsGrounded evidence has_evidence recurrence_tasks min_tasks explained stable
      contradiction h =
    elim (Bool-cases (any (is_of external_types) evidence)) [
      | inl x ↦ absurd (ground (arith, h, x))
      | inr x ↦
          let clean =
            λ (e : Evidence) (i : In e evidence). In-none (is_of external_types) evidence e x i in
          let gates : (has_evidence ≡ true) × (contradiction ≡ false) = ground (arith, h) in
          let why : IsFirm evidence
              ⊎ (HasType artifact_types evidence
                  × ((min_tasks ≤ recurrence_tasks) ⊎ ((explained ≡ true) ⊎ (stable ≡ true)))) =
            elim (Bool-cases (any (is_of operator_types) evidence)) [
              | inl o ↦ inl (inl (any-In (is_of operator_types) evidence o))
              | inr o ↦ elim (Bool-cases (any (is_of review_types) evidence)) [
                | inl r ↦ inl (inr (inl (any-In (is_of review_types) evidence r)))
                | inr r ↦ elim (Bool-cases (any (is_of repo_types) evidence)) [
                  | inl f ↦ inl (inr (inr (any-In (is_of repo_types) evidence f)))
                  | inr f ↦ elim (Bool-cases (any (is_of artifact_types) evidence)) [
                    | inr a ↦ absurd (ground (arith, h, x, o, r, f, a))
                    | inl a ↦ inr (
                      any-In (is_of artifact_types) evidence a,
                      elim (Bool-cases (leb min_tasks recurrence_tasks)) [
                        | inl m ↦ inl (leb→le min_tasks recurrence_tasks m)
                        | inr m ↦ elim (Bool-cases explained) [
                          | inl t ↦ inr (inl t)
                          | inr t ↦ inr (inr (ground (arith, h, x, o, r, f, a, m, t)))
                        ]
                      ],
                    )
                  ]
                ]
              ]
            ] in
          (record { no_external = clean; grounds = why }, gates.0, gates.1)
    ]
