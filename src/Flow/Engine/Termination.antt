-- ===== src/Flow/Engine/Termination.antt =====
-- A run ends. Every rework edge costs one of the global budget, and between two of them the run goes
-- down the forward edges; where these have no cycle, the rounds are bounded.
use wastech_orchestrator.Prelude.{
  ℕ, zero, suc, ◌+◌, ◌-◌, ◌*◌, ◌≤◌, ◌<◌, ◌≡◌, refl, sym, ◌∙◌, inl, inr, false, String, none, some,
  In, Option-cases, arith,
}
use wastech_orchestrator.Flow.Schema.{Edge, is_rework}
use wastech_orchestrator.Flow.Snapshot.{FlowSnapshot, outgoing}
use wastech_orchestrator.Flow.RunState.{FlowRunState, fix_iterations}
use wastech_orchestrator.Flow.Host.{Host, Setup, Engine}
use wastech_orchestrator.Flow.Routing.{entry_node_id, Entry, entry, no_entry}
use wastech_orchestrator.Flow.Engine.{
  Stepped, next, stop, iterate, Halt, fault, ended, loop_from, new_engine, run,
}
use wastech_orchestrator.Flow.Engine.Step.{IsIndexed, Transition, iterate-Transition}
use wastech_orchestrator.Flow.Engine.Budgets.{HasPlainLoops, cap, Transition-fix_iterations}

-- Forward edges lead down: `rank` is a height of each node over the nodes without a forward edge.
pub record IsRanked (snapshot : FlowSnapshot) (rank : String → ℕ) (height : ℕ) : Type 0 where
  pub bounded : (node : String) → rank node ≤ height
  pub descends :
      (node : String) (edge : Edge)
      → In edge (outgoing snapshot node)
      → is_rework edge ≡ false
      → rank edge.to < rank node

one_descent : (d h r r' : ℕ) → r' ≤ h → d * suc h + r' < suc d * suc h + r
one_descent d h r r' le = omega arith

-- One more rework round is paid for by a full descent.
room_spent : (c f h r r' : ℕ) → f < c → r' ≤ h → (c - (f + 1)) * suc h + r' < (c - f) * suc h + r
room_spent c f h r r' lt le =
    let e : c - f ≡ suc (c - (f + 1)) = omega arith in rw e (one_descent (c - (f + 1)) h r r' le)

-- The whole budget and one descent fit into the fuel.
descent_fits : (c f h r fuel : ℕ) → r ≤ h → suc c * suc h ≤ fuel → (c - f) * suc h + r < fuel
descent_fits c f h r fuel le enough =
    let fewer : (c - f) * suc h ≤ c * suc h = grind arith in omega arith

module _ {W : Type 0} (host : Host W) (setup : Setup) (rank : String → ℕ) (height : ℕ) where
  open setup use {snapshot}

  abbrev work_left : Engine W → String → ℕ
  work_left e node = (cap setup - fix_iterations e.run_state) * suc height + rank node

  work_left-Transition :
      (e e' : Engine W) (node : String) (t : Transition setup e e')
      → HasPlainLoops snapshot
      → IsRanked snapshot rank height
      → t.node ≡ node
      → work_left e' t.edge.to < work_left e node
  work_left-Transition e e' node t plain ranked at =
      elim (Transition-fix_iterations setup t plain) [
        | inl (r, counted, room) ↦ rw counted (
            room_spent (cap setup) (fix_iterations e.run_state) height (rank node) (rank t.edge.to)
              room (ranked.bounded t.edge.to))
        | inr (r, counted) ↦
            let down = ranked.descends t.node t.edge t.declared r in
            rw (counted, ← at) (omega arith)
      ]

  loop_ends :
      (fuel : ℕ) (e : Engine W) (node : String)
      → IsIndexed snapshot
      → HasPlainLoops snapshot
      → IsRanked snapshot rank height
      → e.run_state.current_node ≡ some node
      → work_left e node < fuel
      → (h : Halt) × (e' : Engine W) × (loop_from host setup fuel e ≡ ended h e')
  unfolding loop_from
  loop_ends zero e node indexed plain ranked at enough = absurd (omega arith)
  loop_ends (suc fuel) e node indexed plain ranked at enough =
      go (iterate host setup e) refl λ e' went.
        let t = iterate-Transition host setup e e' indexed went in
        let same : t.node ≡ node = some_inj (sym t.here ∙ at) in
        let less = work_left-Transition e e' node t plain ranked same in
        loop_ends fuel e' t.edge.to indexed plain ranked t.arrived (omega arith)
    where
      some_inj : {x y : String} → some x ≡ some y → x ≡ y
      some_inj p = cc

      go :
          (s : Stepped W)
          → iterate host setup e ≡ s
          → ((e' : Engine W)
              → iterate host setup e ≡ next e'
              → (h : Halt) × (x : Engine W) × (loop_from host setup fuel e' ≡ ended h x))
          → (h : Halt) × (x : Engine W) × (loop_from host setup (suc fuel) e ≡ ended h x)
      go (stop h e') p later = (h, e', ground arith)
      go (next e') p later = let (h, x, q) = later e' p in (h, x, ground arith)

  -- Whatever the runners and hooks do: the run of an indexed flow whose loop names are plain and
  -- whose forward edges have no cycle comes to an end within (global cap + 1) * (height + 1)
  -- rounds, from a fresh start as from any checkpoint.
  pub run_terminates :
      (fuel : ℕ) (s : FlowRunState) (w : W)
      → IsIndexed snapshot
      → HasPlainLoops snapshot
      → IsRanked snapshot rank height
      → suc (cap setup) * suc height ≤ fuel
      → (h : Halt) × (e' : Engine W) × (run host setup fuel s w ≡ ended h e')
  unfolding run
  run_terminates fuel s w indexed plain ranked enough = elim (Option-cases s.current_node) [
    | inr (node, at) ↦
        let (h, e', q) =
          loop_ends fuel (new_engine s w) node indexed plain ranked at
            (fits (fix_iterations s) (rank node) (ranked.bounded node)) in
        (h, e', ground arith)
    | inl at ↦ go (entry_node_id snapshot) refl at
  ]
    where
      fits : (f r : ℕ) → r ≤ height → (cap setup - f) * suc height + r < fuel
      fits f r le = descent_fits (cap setup) f height r fuel le enough

      go :
          (x : Entry)
          → entry_node_id snapshot ≡ x
          → s.current_node ≡ none
          → (h : Halt) × (e' : Engine W) × (run host setup fuel s w ≡ ended h e')
      go (no_entry f) p at = (fault f, new_engine s w, ground arith)
      go (entry id) p at =
          let (h, e', q) =
            loop_ends fuel (new_engine (record s { current_node = some id }) w) id indexed plain
              ranked refl (fits (fix_iterations s) (rank id) (ranked.bounded id)) in
          (h, e', ground arith)
