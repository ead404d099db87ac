-- ===== src/Memory/Cleanup/Reconcile.antt =====
-- memory/cleanup.py: the loop over the rows of a file that are reconciled with the repository.
use wastech_orchestrator.Prelude.{ℕ, suc, Bool, not, ◌||◌, List, [], ◌∷◌, ◌++◌, if◌then◌else◌}
use wastech_orchestrator.Prelude.Json.{Fields}
use wastech_orchestrator.Memory.Cleanup.{Verdict, fresh, remap, quarantined, record_active}
use wastech_orchestrator.Memory.Cleanup.Budget.{Budget, scan, spend_edits, can_act}

-- The locals of a reconciling loop, and the budget.
pub record Loop : Type 0 where
  pub kept : List Fields
  pub newly_quarantined : List Fields
  pub remapped : ℕ
  pub quarantined : ℕ
  pub budget : Budget

abbrev keep_row : Loop → Budget → Fields → Loop
keep_row l budget row = record {
  kept = l.kept ++ (row ∷ []);
  newly_quarantined = l.newly_quarantined;
  remapped = l.remapped;
  quarantined = l.quarantined;
  budget = budget;
}

-- What the verdict on a row does.
unfoldable pub settle : Loop → Budget → Fields → Verdict → Loop
settle l budget row fresh = keep_row l (scan budget 1) row
settle l budget row (remap payload) = record {
  kept = l.kept ++ (payload ∷ []);
  newly_quarantined = l.newly_quarantined;
  remapped = suc l.remapped;
  quarantined = l.quarantined;
  budget = spend_edits (scan budget 1) 1;
}
settle l budget row (quarantined payload) = record {
  kept = l.kept;
  newly_quarantined = l.newly_quarantined ++ (payload ∷ []);
  remapped = l.remapped;
  quarantined = suc l.quarantined;
  budget = spend_edits (scan budget 1) 1;
}

module _ (on_time : ℕ → Bool) (classify : Fields → Verdict) where
  unfoldable pub reconcile_row : Loop → Fields → Loop
  unfolding can_act record_active settle
  reconcile_row l row =
      let (may_act, budget) = can_act on_time l.budget in
      if not may_act || not (record_active row)
      then keep_row l budget row
      else settle l budget row (classify row)

  unfoldable pub reconcile_rows : Loop → List Fields → Loop
  unfolding reconcile_row
  reconcile_rows l [] = l
  reconcile_rows l (row ∷ rows) = reconcile_rows (reconcile_row l row) rows

abbrev pub start_loop : Budget → Loop
start_loop budget = record {
  kept = [];
  newly_quarantined = [];
  remapped = 0;
  quarantined = 0;
  budget = budget;
}
