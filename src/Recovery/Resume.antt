-- ===== src/Recovery/Resume.antt =====
-- core/recovery.py, `reconcile_decomposed`: when a decomposed task is resumed, and where.
use wastech_orchestrator.Prelude.{
  ℕ, ◌+◌, ◌≤◌, ltb, ◌≡◌, refl, sym, ◌∙◌, subst, ◌⊎◌, inl, inr, ◌↔◌, Bool, true, false, not, ◌&&◌,
  String, str_eq, eq_iff, Option, none, some, some_inj, or_default, List, [], ◌∷◌, ◌++◌, length,
  is_some, arith, Bool-cases, Option-cases, if◌then◌else◌,
}
use wastech_orchestrator.Recovery.{
  TaskRow, SubtaskRow, recorded_commit, Verified, absent, count, verify_commits, resume, manual,
  ManualReason, absent_commit, more_committed, reconcile_decomposed, plan_decomposed,
}

-- How many subtasks record a commit.
abbrev pub committed : List SubtaskRow → ℕ
committed [] = 0
committed (sub ∷ subs) = (if is_some (recorded_commit sub) then 1 else 0) + committed subs

module _ (commit_on_branch : String → String → Bool) where
  -- Every recorded commit is on the branch, if there is one.
  abbrev pub AllOnBranch : String → List SubtaskRow → Type 0
  AllOnBranch branch [] = Unit
  AllOnBranch branch (sub ∷ subs) =
      ((sha : String)
        → recorded_commit sub ≡ some sha
        → (branch ≡ "") ⊎ (commit_on_branch sha branch ≡ true))
      × AllOnBranch branch subs

  verify_commits-count :
      (branch : String) (c n : ℕ) (subs : List SubtaskRow)
      → verify_commits commit_on_branch branch c subs ≡ count n
      → (n ≡ c + committed subs) × AllOnBranch branch subs
  unfolding verify_commits
  verify_commits-count branch c n [] h = (ground (arith, h), tt)
  verify_commits-count branch c n (sub ∷ subs) h = elim (Option-cases (recorded_commit sub)) [
    | inl e ↦
        let (k, on) = verify_commits-count branch c n subs (rw (verify_commits, e) at h) in
        (ground (arith, e, k), (λ sha p. absurd (ground (arith, e, p)), on))
    | inr (sha, e) ↦
        elim (Bool-cases (not (str_eq branch "") && not (commit_on_branch sha branch))) [
          | inl f ↦ absurd (ground (arith, rw (verify_commits, e, f) at h))
          | inr f ↦
              let (k, on) =
                verify_commits-count branch (c + 1) n subs (rw (verify_commits, e, f) at h) in
              (ground (arith, e, k), (λ sha' p. on_branch sha sha' (some_inj (sym e ∙ p)) f, on))
        ]
  ]
    where
      on_branch :
          (sha sha' : String)
          → sha ≡ sha'
          → (not (str_eq branch "") && not (commit_on_branch sha branch)) ≡ false
          → (branch ≡ "") ⊎ (commit_on_branch sha' branch ≡ true)
      on_branch sha sha' q f = elim (Bool-cases (str_eq branch "")) [
        | inl b ↦ inl ((eq_iff branch "").0 b)
        | inr b ↦ inr (subst (λ x. commit_on_branch x branch ≡ true) q (ground (arith, b, f)))
      ]

  count-verify_commits :
      (branch : String) (c : ℕ) (subs : List SubtaskRow)
      → AllOnBranch branch subs
      → verify_commits commit_on_branch branch c subs ≡ count (c + committed subs)
  unfolding verify_commits
  count-verify_commits branch c [] on = ground arith
  count-verify_commits branch c (sub ∷ subs) (here, on) =
      elim (Option-cases (recorded_commit sub)) [
        | inl e ↦ rw (verify_commits, e) (ground (arith, count-verify_commits branch c subs on))
        | inr (sha, e) ↦
            rw (verify_commits, e, passes sha (here sha e))
              (ground (arith, count-verify_commits branch (c + 1) subs on))
      ]
    where
      passes :
          (sha : String)
          → (branch ≡ "") ⊎ (commit_on_branch sha branch ≡ true)
          → (not (str_eq branch "") && not (commit_on_branch sha branch)) ≡ false
      passes sha (inl e) = ground (arith, (eq_iff branch "").1 e)
      passes sha (inr e) = ground (arith, e)

  -- The rows, the branch and the task's own count agree.
  abbrev pub IsConsistent : TaskRow → List SubtaskRow → Type 0
  IsConsistent task subs =
      AllOnBranch (or_default task.branch "") subs × (committed subs ≤ task.subtasks_completed)

  resume-IsConsistent :
      (task : TaskRow) (subs : List SubtaskRow) (id : String) (k : Option ℕ)
      → reconcile_decomposed commit_on_branch task subs ≡ resume id k
      → IsConsistent task subs
  unfolding reconcile_decomposed
  resume-IsConsistent task subs id k h =
      go (verify_commits commit_on_branch (or_default task.branch "") 0 subs) refl h
    where
      go :
          (v : Verified)
          → verify_commits commit_on_branch (or_default task.branch "") 0 subs ≡ v
          → plan_decomposed commit_on_branch task v ≡ resume id k
          → IsConsistent task subs
      go (absent order sha) e h = absurd (ground (arith, h))
      go (count n) e h =
          let (m, on) = verify_commits-count (or_default task.branch "") 0 n subs e in
          (on, ground (arith, m, h))

  IsConsistent-resume :
      (task : TaskRow) (subs : List SubtaskRow)
      → IsConsistent task subs
      → reconcile_decomposed commit_on_branch task subs
        ≡ resume task.task_id (some (committed subs + 1))
  unfolding reconcile_decomposed
  IsConsistent-resume task subs (on, le) =
      rw (count-verify_commits (or_default task.branch "") 0 subs on) (ground (arith, le))

  -- A decomposed task is resumed at the subtask after as many as record a commit, exactly where every
  -- recorded commit is on the branch, if there is one, and no more are recorded than the task counts.
  pub reconcile_decomposed_iff :
      (task : TaskRow) (subs : List SubtaskRow)
      → (reconcile_decomposed commit_on_branch task subs
          ≡ resume task.task_id (some (committed subs + 1)))
        ↔ IsConsistent task subs
  reconcile_decomposed_iff task subs = (
    λ h. resume-IsConsistent task subs task.task_id (some (committed subs + 1)) h,
    IsConsistent-resume task subs,
  )

  -- Where a recorded commit is not on the branch that the task has, or more are recorded than the task
  -- counts, this one task is stopped for manual action, and no other.
  pub reconcile_decomposed_manual :
      (task : TaskRow) (subs : List SubtaskRow)
      → ¬ IsConsistent task subs
      → (reason : ManualReason) × (reconcile_decomposed commit_on_branch task subs
          ≡ manual (some task.task_id) reason (task.task_id ∷ []))
  unfolding reconcile_decomposed
  reconcile_decomposed_manual task subs wrong =
      go (verify_commits commit_on_branch (or_default task.branch "") 0 subs) refl
    where
      go :
          (v : Verified)
          → verify_commits commit_on_branch (or_default task.branch "") 0 subs ≡ v
          → (reason : ManualReason) × (plan_decomposed commit_on_branch task v
              ≡ manual (some task.task_id) reason (task.task_id ∷ []))
      go (absent order sha) e = (absent_commit order sha (or_default task.branch ""), refl)
      go (count n) e =
          let (m, on) = verify_commits-count (or_default task.branch "") 0 n subs e in
          elim (Bool-cases (ltb task.subtasks_completed n)) [
            | inl more ↦ (more_committed n task.subtasks_completed, rw more)
            | inr few ↦ absurd (wrong (on, ground (arith, m, few)))
          ]

-- Where the committed subtasks stand first, that is the first open one.
abbrev pub IsPrefix : List SubtaskRow → List SubtaskRow → Type 0
IsPrefix [] [] = Unit
IsPrefix [] (sub ∷ rest) = (recorded_commit sub ≡ none) × IsPrefix [] rest
IsPrefix (sub ∷ done) rest = (is_some (recorded_commit sub) ≡ true) × IsPrefix done rest

committed-IsPrefix :
    (done rest : List SubtaskRow) → IsPrefix done rest → committed (done ++ rest) ≡ length done
committed-IsPrefix [] [] p = refl
committed-IsPrefix [] (sub ∷ rest) (e, p) = ground (arith, e, committed-IsPrefix [] rest p)
committed-IsPrefix (sub ∷ done) rest (e, p) = ground (arith, e, committed-IsPrefix done rest p)

-- Where the subtasks that record a commit are the first ones, a task that is resumed goes on with the
-- first that records none.
pub reconcile_decomposed_first :
    (commit_on_branch : String → String → Bool) (task : TaskRow) (done rest : List SubtaskRow)
    (id : String) (k : ℕ)
    → IsPrefix done rest
    → reconcile_decomposed commit_on_branch task (done ++ rest) ≡ resume id (some k)
    → k ≡ length done + 1
reconcile_decomposed_first on task done rest id k p h =
    let consistent = resume-IsConsistent on task (done ++ rest) id (some k) h in
    let same = sym h ∙ IsConsistent-resume on task (done ++ rest) consistent in
    let e : k ≡ committed (done ++ rest) + 1 = ground (arith, same) in
    omega (arith, e, committed-IsPrefix done rest p)
