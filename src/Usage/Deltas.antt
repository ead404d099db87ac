-- ===== src/Usage/Deltas.antt =====
-- core/flow/usage_accounting.py: what the runs of a session used adds up.
use wastech_orchestrator.Prelude.{
  ◌≡◌, refl, sym, ◌∙◌, ◌⊎◌, inl, inr, true, false, String, Option, none, some, Bool-cases,
}
use wastech_orchestrator.Prelude.Int.{ℤ, pos, lt_int, ◌+ℤ◌, ◌-ℤ◌, sub_add, sub_lt}
use wastech_orchestrator.Providers.Request.{NormalizedUsage}
use wastech_orchestrator.Usage.{
  is_cumulative, subtract_field, subtract, same_session, delta_from, compute_usage_delta,
}

-- Against a baseline, a count that is not negative and makes the baseline up to the current count; without
-- one, the current count as it is.
abbrev pub Adds : Option ℤ → Option ℤ → Option ℤ → Type 0
Adds none base none = Unit
Adds (some d) none (some cur) = d ≡ cur
Adds (some d) (some base) (some cur) = (d +ℤ base ≡ cur) × (lt_int d (pos 0) ≡ false)
Adds _ _ _ = ⊥

-- A count that is less than its baseline.
abbrev pub Shrank : Option ℤ → Option ℤ → Type 0
Shrank (some cur) (some base) = lt_int cur base ≡ true
Shrank _ _ = ⊥

pub record AddsUp (d base cur : NormalizedUsage) : Type 0 where
  pub input_total : Adds d.input_total base.input_total cur.input_total
  pub cache_read : Adds d.cache_read base.cache_read cur.cache_read
  pub cache_write : Adds d.cache_write base.cache_write cur.cache_write
  pub uncached_input : Adds d.uncached_input base.uncached_input cur.uncached_input
  pub output_total : Adds d.output_total base.output_total cur.output_total
  pub reasoning_output : Adds d.reasoning_output base.reasoning_output cur.reasoning_output

abbrev pub SomeShrank : NormalizedUsage → NormalizedUsage → Type 0
SomeShrank cur base =
    Shrank cur.input_total base.input_total
    ⊎ (Shrank cur.cache_read base.cache_read
        ⊎ (Shrank cur.cache_write base.cache_write
            ⊎ (Shrank cur.uncached_input base.uncached_input
                ⊎ (Shrank cur.output_total base.output_total
                    ⊎ Shrank cur.reasoning_output base.reasoning_output))))

-- What is left of one field, or that it shrank.
subtract_field-Adds :
    (cur base : Option ℤ)
    → ((d : Option ℤ) × (subtract_field cur base ≡ some d) × Adds d base cur)
      ⊎ ((subtract_field cur base ≡ none) × Shrank cur base)
subtract_field-Adds none base = inl (none, refl, tt)
subtract_field-Adds (some cur) none = inl (some cur, refl, refl)
subtract_field-Adds (some cur) (some base) = elim (Bool-cases (lt_int (cur -ℤ base) (pos 0))) [
  | inl e ↦ inr (rw e refl, sym (sub_lt cur base) ∙ e)
  | inr e ↦ inl (some (cur -ℤ base), rw e refl, (sub_add cur base, e))
]

subtract-AddsUp :
    (cur base : NormalizedUsage)
    → ((d : NormalizedUsage) × (subtract cur base ≡ some d) × AddsUp d base cur)
      ⊎ ((subtract cur base ≡ none) × SomeShrank cur base)
unfolding subtract
subtract-AddsUp cur base = elim (subtract_field-Adds cur.input_total base.input_total) [
  | inr (e, s) ↦ inr (rw (subtract, e) refl, inl s)
  | inl (d1, e1, a1) ↦ elim (subtract_field-Adds cur.cache_read base.cache_read) [
    | inr (e, s) ↦ inr (rw (subtract, e1, e) refl, inr (inl s))
    | inl (d2, e2, a2) ↦ elim (subtract_field-Adds cur.cache_write base.cache_write) [
      | inr (e, s) ↦ inr (rw (subtract, e1, e2, e) refl, inr (inr (inl s)))
      | inl (d3, e3, a3) ↦ elim (subtract_field-Adds cur.uncached_input base.uncached_input) [
        | inr (e, s) ↦ inr (rw (subtract, e1, e2, e3, e) refl, inr (inr (inr (inl s))))
        | inl (d4, e4, a4) ↦ elim (subtract_field-Adds cur.output_total base.output_total) [
          | inr (e, s) ↦ inr (rw (subtract, e1, e2, e3, e4, e) refl, inr (inr (inr (inr (inl s)))))
          | inl (d5, e5, a5) ↦
              elim (subtract_field-Adds cur.reasoning_output base.reasoning_output) [
                | inr (e, s) ↦
                    inr (rw (subtract, e1, e2, e3, e4, e5, e) refl, inr (inr (inr (inr (inr s)))))
                | inl (d6, e6, a6) ↦
                    let d : NormalizedUsage = record {
                      scope = cur.scope;
                      input_total = d1;
                      cache_read = d2;
                      cache_write = d3;
                      uncached_input = d4;
                      output_total = d5;
                      reasoning_output = d6;
                      cost = none;
                    } in
                    inl (
                      d,
                      rw (subtract, e1, e2, e3, e4, e5, e6) refl,
                      record {
                        input_total = a1;
                        cache_read = a2;
                        cache_write = a3;
                        uncached_input = a4;
                        output_total = a5;
                        reasoning_output = a6;
                      },
                    )
              ]
        ]
      ]
    ]
  ]
]

-- A later run of a session, by a provider that counts the whole session: either what the run used is
-- recorded, where a count that the run before has too is not negative and makes that one up to the
-- session's, a count that it has not is the session's as it is, and a count that the session has not is
-- not recorded; or some count is less than before, and nothing is recorded, as unknown.
pub compute_usage_delta-AddsUp :
    (cur base : NormalizedUsage) (session before : Option String)
    → is_cumulative cur.scope ≡ true
    → same_session session before ≡ true
    → ((d : NormalizedUsage) × (compute_usage_delta (some cur) (some base) session before
          ≡ (some d, some "ok"))
        × AddsUp d base cur)
      ⊎ ((compute_usage_delta (some cur) (some base) session before ≡ (none, some "unknown"))
          × SomeShrank cur base)
unfolding compute_usage_delta delta_from
compute_usage_delta-AddsUp cur base session before c s = elim (subtract-AddsUp cur base) [
  | inl (d, e, a) ↦ inl (d, rw (compute_usage_delta, c, delta_from, s, e) refl, a)
  | inr (e, shrank) ↦ inr (rw (compute_usage_delta, c, delta_from, s, e) refl, shrank)
]
