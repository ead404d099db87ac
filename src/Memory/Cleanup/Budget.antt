-- ===== src/Memory/Cleanup/Budget.antt =====
-- memory/cleanup.py, `_Budget`: the caps of one pass, which `full` lifts.
use wastech_orchestrator.Prelude.{
  ℕ, suc, ◌+◌, ◌-◌, min, Bool, true, false, ◌&&◌, ◌||◌, ltb, if◌then◌else◌,
}

pub record Budget : Type 0 where
  pub full : Bool
  pub max_scanned : ℕ
  pub max_edits : ℕ
  pub scanned : ℕ
  pub edits : ℕ
  -- How often the clock was read.
  pub readings : ℕ

abbrev read_clock : Budget → Budget
read_clock b = record {
  full = b.full;
  max_scanned = b.max_scanned;
  max_edits = b.max_edits;
  scanned = b.scanned;
  edits = b.edits;
  readings = suc b.readings;
}

abbrev pub scan : Budget → ℕ → Budget
scan b n = record {
  full = b.full;
  max_scanned = b.max_scanned;
  max_edits = b.max_edits;
  scanned = b.scanned + n;
  edits = b.edits;
  readings = b.readings;
}

abbrev pub spend_edits : Budget → ℕ → Budget
spend_edits b n = record {
  full = b.full;
  max_scanned = b.max_scanned;
  max_edits = b.max_edits;
  scanned = b.scanned;
  edits = b.edits + n;
  readings = b.readings;
}

-- max(0, min(wanted, self._max_edits - self.edits))
abbrev pub allow_edits : Budget → ℕ → ℕ
allow_edits b wanted = if b.full then wanted else min wanted (b.max_edits - b.edits)

module _ (on_time : ℕ → Bool) where
  unfoldable pub within_clock : Budget → Bool × Budget
  within_clock b = if b.full then (true, b) else (on_time b.readings, read_clock b)

  unfoldable pub can_scan : Budget → Bool × Budget
  unfolding within_clock
  can_scan b =
      let (in_time, after) = within_clock b in
      (in_time && (b.full || ltb b.scanned b.max_scanned), after)

  unfoldable pub can_edit : Budget → Bool × Budget
  unfolding within_clock
  can_edit b =
      let (in_time, after) = within_clock b in
      (in_time && (b.full || ltb b.edits b.max_edits), after)

  -- can_scan() and can_edit()
  unfoldable pub can_act : Budget → Bool × Budget
  unfolding can_scan can_edit
  can_act b =
      let (may_scan, after) = can_scan b in if may_scan then can_edit after else (false, after)
