-- ===== src/Recovery.antt =====
-- core/recovery.py and core/infra_disposition.py: what to do with a task after a restart, and with a
-- stage that exhausted its providers. The rows that the state store returns and the question to git
-- whether a commit is on a branch are arguments.
pub mod Disposition
pub mod Resume
use wastech_orchestrator.Prelude.{
  ℕ, suc, ◌+◌, ltb, ◌==◌, Bool, true, false, not, ◌&&◌, String, str_eq, Option, none, some, List,
  [], ◌∷◌, map, or_default, if◌then◌else◌,
}

pub record TaskRow : Type 0 where
  pub task_id : String
  pub branch : Option String
  pub subtask_count : Option ℕ
  pub decomposition_accepted : Option Bool
  pub subtasks_completed : ℕ

pub record SubtaskRow : Type 0 where
  pub order : ℕ
  pub commit_sha : Option String

-- The reasons for a manual stop.
pub data ManualReason : Type 0 where
  many_active : ManualReason
  absent_commit : ℕ → String → String → ManualReason
  more_committed : ℕ → ℕ → ManualReason

pub data RecoveryPlan : Type 0 where
  nothing : RecoveryPlan
  resume : String → Option ℕ → RecoveryPlan
  cleanup : String → RecoveryPlan
  -- the task, if it is about one, and the tasks to stop
  manual : Option String → ManualReason → List String → RecoveryPlan

-- `if sub.commit_sha:`
abbrev pub recorded_commit : SubtaskRow → Option String
recorded_commit sub = elim sub.commit_sha [
  | none ↦ none
  | some sha ↦ if str_eq sha "" then none else some sha
]

-- What the loop over the subtasks comes to: a commit that the branch lacks, or their number.
pub data Verified : Type 0 where
  absent : ℕ → String → Verified
  count : ℕ → Verified

module _ (commit_on_branch : String → String → Bool) where
  unfoldable pub verify_commits : String → ℕ → List SubtaskRow → Verified
  verify_commits branch committed [] = count committed
  verify_commits branch committed (sub ∷ subs) = elim (recorded_commit sub) [
    | none ↦ verify_commits branch committed subs
    | some sha ↦ elim (not (str_eq branch "") && not (commit_on_branch sha branch)) [
      | true ↦ absent sub.order sha
      | false ↦ verify_commits branch (committed + 1) subs
    ]
  ]

  abbrev plan_decomposed : TaskRow → Verified → RecoveryPlan
  plan_decomposed task (absent order sha) =
      manual (some task.task_id) (absent_commit order sha (or_default task.branch ""))
        (task.task_id ∷ [])
  plan_decomposed task (count committed) =
      if ltb task.subtasks_completed committed
      then manual (some task.task_id) (more_committed committed task.subtasks_completed)
          (task.task_id ∷ [])
      else resume task.task_id (some (committed + 1))

  unfoldable pub reconcile_decomposed : TaskRow → List SubtaskRow → RecoveryPlan
  unfolding verify_commits
  reconcile_decomposed task subtasks =
      plan_decomposed task (verify_commits (or_default task.branch "") 0 subtasks)

  -- `task.subtask_count and task.decomposition_accepted`
  abbrev pub is_decomposed : TaskRow → Bool
  is_decomposed task =
      not (or_default task.subtask_count 0 == 0) && or_default task.decomposition_accepted false

  abbrev first_cleanup : List TaskRow → RecoveryPlan
  first_cleanup [] = nothing
  first_cleanup (task ∷ tasks) = cleanup task.task_id

  -- The active tasks, the terminal ones that were not cleaned up, and the subtasks of a task.
  unfoldable pub reconcile : List TaskRow → List TaskRow → (String → List SubtaskRow) → RecoveryPlan
  unfolding reconcile_decomposed
  reconcile [] uncleaned subtasks = first_cleanup uncleaned
  reconcile (task ∷ []) uncleaned subtasks =
      if is_decomposed task
      then reconcile_decomposed task (subtasks task.task_id)
      else resume task.task_id none
  reconcile (task ∷ other ∷ tasks) uncleaned subtasks =
      manual none many_active (map (λ t. t.task_id) (task ∷ other ∷ tasks))
