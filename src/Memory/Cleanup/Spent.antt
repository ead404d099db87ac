-- ===== src/Memory/Cleanup/Spent.antt =====
-- memory/cleanup.py: what asking the budget and reconciling rows spend.
use wastech_orchestrator.Prelude.{
  ℕ, ◌+◌, ◌≤◌, ◌<◌, Bool, true, false, not, ◌||◌, List, [], ◌∷◌, ◌≡◌, refl, ◌∙◌, inl, inr, arith,
  Bool-cases,
}
use wastech_orchestrator.Prelude.Json.{Fields}
use wastech_orchestrator.Memory.Cleanup.{Verdict, fresh, remap, quarantined, record_active}
use wastech_orchestrator.Memory.Cleanup.Budget.{
  Budget, spend_edits, allow_edits, within_clock, can_scan, can_edit, can_act,
}
use wastech_orchestrator.Memory.Cleanup.Reconcile.{Loop, settle, reconcile_row, reconcile_rows}

-- From the first budget to the second, `n` edits were spent, and within the cap.
abbrev pub IsSpent : Budget → Budget → ℕ → Type 0
IsSpent b after n =
    (after.full ≡ b.full)
    × (after.max_edits ≡ b.max_edits)
    × (after.edits ≡ b.edits + n)
    × (b.full ≡ false → b.edits ≤ b.max_edits → after.edits ≤ b.max_edits)

pub IsSpent-trans : (a b c : Budget) (m n : ℕ) → IsSpent a b m → IsSpent b c n → IsSpent a c (m + n)
IsSpent-trans a b c m n h k = (
  ground (arith, h.0, k.0),
  ground (arith, h.1, k.1),
  ground (arith, h.2, k.2),
  λ full small.
      ground (arith, h.0, h.1, h.3 full small, k.3 (h.0 ∙ full) (rw (h.1) (h.3 full small))),
)

pub IsSpent-refl : (b : Budget) → IsSpent b b 0
IsSpent-refl b = (refl, refl, omega arith, λ full small. small)

-- What `allow_edits` permits is within the cap.
pub IsSpent-allow_edits :
    (b : Budget) (wanted : ℕ)
    → IsSpent b (spend_edits b (allow_edits b wanted)) (allow_edits b wanted)
IsSpent-allow_edits b wanted = (refl, refl, refl, λ full small. rw full (ground (arith, small)))

within_clock-IsSpent : (on_time : ℕ → Bool) (b : Budget) → IsSpent b (within_clock on_time b).1 0
unfolding within_clock
within_clock-IsSpent on_time b = elim (Bool-cases b.full) [
  | inl e ↦ rw (within_clock, e) (refl, refl, omega arith, λ full small. small)
  | inr e ↦ rw (within_clock, e) (refl, refl, omega arith, λ full small. small)
]

can_scan-IsSpent : (on_time : ℕ → Bool) (b : Budget) → IsSpent b (can_scan on_time b).1 0
unfolding can_scan
can_scan-IsSpent on_time b = within_clock-IsSpent on_time b

can_edit-IsSpent : (on_time : ℕ → Bool) (b : Budget) → IsSpent b (can_edit on_time b).1 0
unfolding can_edit
can_edit-IsSpent on_time b = within_clock-IsSpent on_time b

can_edit-left :
    (on_time : ℕ → Bool) (b : Budget)
    → (can_edit on_time b).0 ≡ true
    → b.full ≡ false
    → b.edits < b.max_edits
unfolding can_edit
can_edit-left on_time b says full = ground (arith, says, full)

-- Asking spends nothing; a yes means that an edit is left.
pub can_act-IsSpent :
    (on_time : ℕ → Bool) (b : Budget)
    → IsSpent b (can_act on_time b).1 0
      × ((can_act on_time b).0 ≡ true → b.full ≡ false → b.edits < b.max_edits)
unfolding can_act
can_act-IsSpent on_time b =
    let after = (can_scan on_time b).1 in
    let scanned = can_scan-IsSpent on_time b in
    elim (Bool-cases (can_scan on_time b).0) [
      | inl e ↦
          rw (can_act, e)
            (
              IsSpent-trans b after (can_edit on_time after).1 0 0 scanned
                  (can_edit-IsSpent on_time after),
              λ says full.
                  let left = can_edit-left on_time after says (scanned.0 ∙ full) in
                  omega (arith, scanned.1, scanned.2, left),
            )
      | inr e ↦ rw (can_act, e) (scanned, λ says full. absurd (ground (arith, says)))
    ]

module _ (on_time : ℕ → Bool) (classify : Fields → Verdict) where
  abbrev pub changed : Loop → ℕ
  changed l = l.remapped + l.quarantined

  settle-IsSpent :
      (l : Loop) (asked : Budget) (row : Fields) (verdict : Verdict)
      → IsSpent l.budget asked 0
      → (l.budget.full ≡ false → l.budget.edits < l.budget.max_edits)
      → (n : ℕ) × IsSpent l.budget (settle l asked row verdict).budget n
        × (changed (settle l asked row verdict) ≡ changed l + n)
  unfolding settle
  settle-IsSpent l asked row fresh same left = (0, same, omega arith)
  settle-IsSpent l asked row (remap payload) same left = (
    1,
    (same.0, same.1, omega (arith, same.2), λ full small. ground (arith, same.2, left full)),
    omega arith,
  )
  settle-IsSpent l asked row (quarantined payload) same left = (
    1,
    (same.0, same.1, omega (arith, same.2), λ full small. ground (arith, same.2, left full)),
    omega arith,
  )

  reconcile_row-IsSpent :
      (l : Loop) (row : Fields)
      → (n : ℕ) × IsSpent l.budget (reconcile_row on_time classify l row).budget n
        × (changed (reconcile_row on_time classify l row) ≡ changed l + n)
  unfolding reconcile_row
  reconcile_row-IsSpent l row =
      let asked = (can_act on_time l.budget).1 in
      let (same, left) = can_act-IsSpent on_time l.budget in
      elim (Bool-cases (not (can_act on_time l.budget).0 || not (record_active row))) [
        | inl e ↦ rw (reconcile_row, e) (0, same, omega arith)
        | inr e ↦
            let says : (can_act on_time l.budget).0 ≡ true = ground (arith, e) in
            rw (reconcile_row, e) (settle-IsSpent l asked row (classify row) same (left says))
      ]

  pub reconcile_rows-IsSpent :
      (l : Loop) (rows : List Fields)
      → (n : ℕ) × IsSpent l.budget (reconcile_rows on_time classify l rows).budget n
        × (changed (reconcile_rows on_time classify l rows) ≡ changed l + n)
  unfolding reconcile_rows
  reconcile_rows-IsSpent l [] = (0, IsSpent-refl l.budget, omega arith)
  reconcile_rows-IsSpent l (row ∷ rows) =
      let (m, h, p) = reconcile_row-IsSpent l row in
      let after = reconcile_row on_time classify l row in
      let (n, k, q) = reconcile_rows-IsSpent after rows in
      (
        m + n,
        IsSpent-trans l.budget after.budget (reconcile_rows on_time classify after rows).budget m n
            h k,
        omega (arith, p, q),
      )
