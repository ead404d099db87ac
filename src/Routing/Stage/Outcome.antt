-- ===== src/Routing/Stage/Outcome.antt =====
-- routing/router.py, `AgentRouter.run_stage`: what every outcome of a stage satisfies.
use wastech_orchestrator.Prelude.{
  ℕ, ◌+◌, ◌*◌, ◌≤◌, ◌<◌, ◌≡◌, refl, sym, subst, ap, some_inj, leb, leb→gt, gt→leb, ◌∙◌, String,
  true, false, Option, none, some, List, [], ◌∷◌, length, is_some, Bool-cases, arith, inl, inr, not,
}
use wastech_orchestrator.Providers.Base.{ProviderId, cancelled, same_class, NormalizedError}
use wastech_orchestrator.Providers.Request.{AgentRunRequest}
use wastech_orchestrator.Routing.Config.{AgentRouter}
use wastech_orchestrator.Routing.Route.{ResolvedRoute}
use wastech_orchestrator.Routing.Attempts.{WorkingTreeSnapshot}
use wastech_orchestrator.Routing.Stage.{
  SnapshotHook, StageOutcome, Progress, Round, escaped, answered, broken, continued, hop, first,
  try_each, settled_error, conclude, sequence, no_progress, run_stage, captured, surface,
}
use wastech_orchestrator.Routing.Stage.Counting.{IsNumbered}
use wastech_orchestrator.Routing.Stage.Rounds.{IsCounted, IsCountedRound, hop-IsCounted}

module _ {W : Type 0} (router : AgentRouter W) where
  abbrev limit : ℕ
  limit = router.agents.max_stage_attempts

  abbrev retries : ℕ
  retries = router.agents.retry_max_attempts

  -- The retries that a list of providers may spend.
  abbrev retries_for : List ProviderId → ℕ
  retries_for [] = 0
  retries_for (pid ∷ pids) = retries + retries_for pids

  weaken : (a b : ℕ) (s : Progress W) → IsCounted limit a s → a ≤ b → IsCounted limit b s
  weaken a b s h le = record {
    hops = h.hops;
    recorded = h.recorded;
    calls = omega (arith, h.calls, le);
  }

  module _ (before : Option (SnapshotHook W × WorkingTreeSnapshot))
      (request : AgentRunRequest) where
    -- A round past its guard, by how its hop ends.
    after_hop :
        (spent spare : ℕ) (previous : Option ProviderId) (pid : ProviderId) (pids : List ProviderId)
        (s : Progress W) (r : Round W)
        → hop router before request previous pid (first router before request pids) s ≡ r
        → leb limit s.stage_attempts ≡ false
        → IsCountedRound limit spent r
        → spent ≤ spare
        → ((s' : Progress W)
            → IsCounted limit spent s'
            → is_some s'.last_error ≡ true
            → IsCountedRound limit spare (try_each router before request (some pid) pids s'))
        → IsCountedRound limit spare (try_each router before request previous (pid ∷ pids) s)
    unfolding try_each
    after_hop spent spare previous pid pids s escaped q e k fits rest = rw (try_each, e, q) tt
    after_hop spent spare previous pid pids s (answered result used s') q e k fits rest =
        rw (try_each, e, q) (weaken spent spare s' k fits)
    after_hop spent spare previous pid pids s (broken s') q e (k, explained) fits rest =
        rw (try_each, e, q) (weaken spent spare s' k fits, explained)
    after_hop spent spare previous pid pids s (continued s') q e (k, explained) fits rest =
        rw (try_each, e, q) (rest s' k explained)

    try_each-IsCounted :
        (spent spare : ℕ) (previous : Option ProviderId) (pids : List ProviderId) (s : Progress W)
        → IsCounted limit spent s
        → spent + retries_for pids ≤ spare
        → is_some s.last_error ≡ true
        → IsCountedRound limit spare (try_each router before request previous pids s)
    unfolding try_each
    try_each-IsCounted spent spare previous [] s h fits explained =
        (weaken spent spare s h (omega (arith, fits)), explained)
    try_each-IsCounted spent spare previous (pid ∷ pids) s h fits explained =
        elim (Bool-cases (leb limit s.stage_attempts)) [
          | inl e ↦ rw (try_each, e) (weaken spent spare s h (omega (arith, fits)), explained)
          | inr e ↦
              after_hop (spent + retries) spare previous pid pids s _ refl e
                (hop-IsCounted router before (spent + retries) pid
                  (first router before request pids) spent request previous s h (omega arith)
                  (leb→gt limit s.stage_attempts e))
                (omega (arith, fits))
                (λ s' k explained'.
                  try_each-IsCounted (spent + retries) spare (some pid) pids s' k
                    (omega (arith, fits)) explained')
        ]

    -- The same from no progress, where the limit leaves room for a first hop.
    try_each-IsCounted_first :
        (route : ResolvedRoute) (pid : ProviderId) (pids : List ProviderId) (w : W) (spare : ℕ)
        → 0 < limit
        → retries + retries_for pids ≤ spare
        → IsCountedRound limit spare
            (try_each router before request none (pid ∷ pids) (no_progress router route w))
    try_each-IsCounted_first route pid pids w spare room fits =
        let s = no_progress router route w in
        let h : IsCounted limit 0 s = record {
          hops = omega arith;
          recorded = (tt, refl);
          calls = omega arith;
        } in
        after_hop retries spare none pid pids s _ refl (gt→leb limit 0 room)
          (hop-IsCounted router before retries pid (first router before request pids) 0 request none
            s h (omega arith) room)
          (omega (arith, fits))
          (λ s' k explained. try_each-IsCounted retries spare (some pid) pids s' k fits explained)

  -- Hops and calls are bounded, the rows are numbered from 1 without a gap, and the outcome has a
  -- result or an error, never both.
  pub record IsAccounted (o : StageOutcome) : Type 0 where
    pub hops : o.stage_attempts ≤ limit
    pub calls : length o.attempts ≤ o.stage_attempts + 2 * retries
    pub numbered : IsNumbered 0 o.attempts
    pub settled : is_some o.result ≡ not (is_some o.terminal_error)

  settled_error-is_some :
      (e : Option NormalizedError) (instant : Option String)
      → is_some (settled_error router e instant) ≡ is_some e
  unfolding settled_error
  settled_error-is_some none instant = refl
  settled_error-is_some (some e) instant = elim (Bool-cases (same_class e.error_class cancelled)) [
    | inl f ↦ rw (settled_error, f)
    | inr f ↦ rw (settled_error, f)
  ]

  surfaced :
      (route : ResolvedRoute) (s : Progress W) (o : StageOutcome) (w : W)
      → IsCounted limit (2 * retries) s
      → is_some s.last_error ≡ true
      → surface router route s ≡ some (o, w)
      → IsAccounted o
  surfaced route s o w h x e = subst IsAccounted (ap (λ p. p.0) (some_inj e)) (record {
    hops = h.hops;
    calls = h.calls;
    numbered = h.recorded.0;
    settled = sym (ap not (settled_error-is_some s.last_error s.earliest_reset ∙ x));
  })

  conclude-IsAccounted :
      (route : ResolvedRoute) (r : Round W) (o : StageOutcome) (w : W)
      → IsCountedRound limit (2 * retries) r
      → conclude router route r ≡ some (o, w)
      → IsAccounted o
  unfolding conclude
  conclude-IsAccounted route escaped o w h e = absurd (ground arith)
  conclude-IsAccounted route (answered result pid s) o w h e =
      subst IsAccounted (ap (λ p. p.0) (some_inj e))
        (record { hops = h.hops; calls = h.calls; numbered = h.recorded.0; settled = refl })
  conclude-IsAccounted route (broken s) o w (h, x) e = surfaced route s o w h x e
  conclude-IsAccounted route (continued s) o w (h, x) e = surfaced route s o w h x e

  abbrev pub pids_after : Option ProviderId → List ProviderId
  pids_after none = []
  pids_after (some pid) = pid ∷ []

  retries_for-pids_after : (f : Option ProviderId) → retries_for (pids_after f) ≤ retries
  retries_for-pids_after none = omega arith
  retries_for-pids_after (some pid) = omega arith

  pub sequence-lem :
      (route : ResolvedRoute) → sequence router route ≡ route.primary ∷ pids_after route.fallback
  unfolding sequence
  sequence-lem route = go route.fallback
    where
      go :
          (f : Option ProviderId)
          → (elim f [ none ↦ route.primary ∷ [] | some pid ↦ route.primary ∷ pid ∷ [] ])
            ≡ route.primary ∷ pids_after f
      go none = refl
      go (some pid) = refl

  -- Under a limit of at least one hop, every outcome that `run_stage` returns has at most that many
  -- hops, at most twice the retries more calls than hops, rows numbered 1, 2, ... without a gap,
  -- and a result exactly where it has no terminal error.
  pub run_stage-IsAccounted :
      (request : AgentRunRequest) (route : ResolvedRoute) (snapshot : Option (SnapshotHook W))
      (w w' : W) (o : StageOutcome)
      → 0 < limit
      → run_stage router route request snapshot w ≡ some (o, w')
      → IsAccounted o
  unfolding run_stage
  run_stage-IsAccounted request route snapshot w w' o room h =
      let (before, w0) = captured router route snapshot w in
      let pids = pids_after route.fallback in
      conclude-IsAccounted route _ o w'
        (try_each-IsCounted_first before request route route.primary pids w0 (2 * retries) room
          (omega (arith, retries_for-pids_after route.fallback)))
        (rw (run_stage, sequence-lem route) at h)
