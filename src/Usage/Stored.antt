-- ===== src/Usage/Stored.antt =====
-- core/flow/usage_accounting.py: what is stored for a session is read back.
use wastech_orchestrator.Prelude.{
  ◌≡◌, refl, false, String, str_eq, Option, some, ◌⊎◌, inl, inr, Bool-cases, if◌then◌else◌,
}
use wastech_orchestrator.Prelude.Json.{Value, object, get_field}
use wastech_orchestrator.Providers.Request.{
  UsageScope, session_cumulative, per_invocation, NormalizedUsage,
}
use wastech_orchestrator.Usage.{
  is_cumulative, StoredUsage, count_value, cost_value, as_dict, absent, stored, stored_of,
  read_usage, deserialize_usage, serialize_usage, snapshot_for_lineage,
}

-- The same fields, as JSON values.
abbrev pub as_stored : NormalizedUsage → StoredUsage
as_stored u = record {
  scope = u.scope;
  input_total = count_value u.input_total;
  cache_read = count_value u.cache_read;
  cache_write = count_value u.cache_write;
  uncached_input = count_value u.uncached_input;
  output_total = count_value u.output_total;
  reasoning_output = count_value u.reasoning_output;
  cost = cost_value u.cost;
}

read_usage-as_dict : (u : NormalizedUsage) → read_usage (object (as_dict u)) ≡ stored (as_stored u)
unfolding read_usage stored_of get_field
read_usage-as_dict u = elim (scope_cases u.scope) [ inl e ↦ rw e refl | inr e ↦ rw e refl ]
  where
    scope_cases : (s : UsageScope) → (s ≡ session_cumulative) ⊎ (s ≡ per_invocation)
    scope_cases session_cumulative = inl refl
    scope_cases per_invocation = inr refl

-- If the JSON text of a usage loads as what was dumped and is not empty, then the snapshot that is kept for
-- its session reads back with the same fields, where the usage is cumulative; otherwise none is kept.
pub deserialize_usage-snapshot_for_lineage :
    (dumps : Value → String) (loads : String → Option Value) (u : NormalizedUsage)
    → loads (dumps (object (as_dict u))) ≡ some (object (as_dict u))
    → str_eq (dumps (object (as_dict u))) "" ≡ false
    → deserialize_usage loads (snapshot_for_lineage dumps (some u))
      ≡ (if is_cumulative u.scope then stored (as_stored u) else absent)
unfolding deserialize_usage snapshot_for_lineage serialize_usage
deserialize_usage-snapshot_for_lineage dumps loads u back full =
    elim (Bool-cases (is_cumulative u.scope)) [
      | inl c ↦ rw (c, full, back) (read_usage-as_dict u)
      | inr c ↦ rw c refl
    ]
