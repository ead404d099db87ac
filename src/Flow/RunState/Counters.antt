-- ===== src/Flow/RunState/Counters.antt =====
-- What `bump` and `reset` do to each counter.
use wastech_orchestrator.Prelude.{◌+◌, ◌≤◌, ◌≡◌, ◌≢◌, String, str_eq, eq_iff, arith, if◌then◌else◌}
use wastech_orchestrator.Prelude.Dict.{get-put, get-pop}
use wastech_orchestrator.Flow.RunState.{FlowRunState, counter, bump, reset}

pub counter-bump :
    (s : FlowRunState) (k j : String)
    → counter (bump s k) j ≡ (if str_eq k j then counter s k + 1 else counter s j)
unfolding bump
counter-bump s k j = ground (arith, get-put s.loop_counters k j (counter s k + 1))

pub counter-bump_self : (s : FlowRunState) (k : String) → counter (bump s k) k ≡ counter s k + 1
counter-bump_self s k = ground (arith, counter-bump s k k, eq_iff k k)

pub counter-bump_ne : (s : FlowRunState) (k j : String) → k ≢ j → counter (bump s k) j ≡ counter s j
counter-bump_ne s k j h = ground (arith, counter-bump s k j, eq_iff k j)

pub counter-reset_self : (s : FlowRunState) (k : String) → counter (reset s k) k ≡ 0
unfolding reset
counter-reset_self s k = ground (arith, get-pop s.loop_counters k k, eq_iff k k)

pub counter-reset_ne :
    (s : FlowRunState) (k j : String) → k ≢ j → counter (reset s k) j ≡ counter s j
unfolding reset
counter-reset_ne s k j h = ground (arith, get-pop s.loop_counters k j, eq_iff k j)

pub counter-reset_le : (s : FlowRunState) (k j : String) → counter (reset s k) j ≤ counter s j
unfolding reset
counter-reset_le s k j = ground (arith, get-pop s.loop_counters k j)
