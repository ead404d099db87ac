-- ===== src/Usage.antt =====
-- core/flow/usage_accounting.py: what one run used, from the usage that providers report, and the snapshot
-- that is kept for a session. The types are those of providers/base.py; a cost is a float's literal, and
-- `json.dumps` and `json.loads` are parameters.
pub mod Deltas
pub mod Stored
use wastech_orchestrator.Prelude.{
  Bool, true, false, String, str_eq, Option, none, some, if◌then◌else◌,
}
use wastech_orchestrator.Prelude.Int.{ℤ, pos, negsuc, lt_int, ◌-ℤ◌}
use wastech_orchestrator.Providers.Request.{
  UsageScope, session_cumulative, per_invocation, NormalizedUsage,
}
use wastech_orchestrator.Prelude.Json.{
  Value, null, bool, int, float, text, array, object, Items, Fields, end, field, get_field,
}

abbrev pub is_cumulative : UsageScope → Bool
is_cumulative session_cumulative = true
is_cumulative per_invocation = false

-- The scope's `value`
abbrev pub scope_value : UsageScope → String
scope_value session_cumulative = "session_cumulative"
scope_value per_invocation = "per_invocation"

-- UsageScope(value), or None where that raises a ValueError
abbrev pub scope_of : Value → Option UsageScope
scope_of (text s) =
    if str_eq s "session_cumulative"
    then some session_cumulative
    else if str_eq s "per_invocation"
    then some per_invocation
    else none
scope_of _ = none

abbrev pub count_value : Option ℤ → Value
count_value none = null
count_value (some n) = int n

abbrev pub cost_value : Option String → Value
cost_value none = null
cost_value (some c) = float c

-- dataclasses.asdict(usage)
abbrev pub as_dict : NormalizedUsage → Fields
as_dict u = field "scope" (text (scope_value u.scope)) (
    field "input_total" (count_value u.input_total) (
      field "cache_read" (count_value u.cache_read) (
        field "cache_write" (count_value u.cache_write) (
          field "uncached_input" (count_value u.uncached_input) (
            field "output_total" (count_value u.output_total) (
              field "reasoning_output" (count_value u.reasoning_output)
                (field "cost" (cost_value u.cost) end)))))))

-- What `deserialize_usage` makes: apart from the scope, a field holds whatever the JSON has there.
pub record StoredUsage : Type 0 where
  pub scope : UsageScope
  pub input_total : Value
  pub cache_read : Value
  pub cache_write : Value
  pub uncached_input : Value
  pub output_total : Value
  pub reasoning_output : Value
  pub cost : Value

pub data Deserialized : Type 0 where
  absent : Deserialized
  stored : StoredUsage → Deserialized
  -- the text is no JSON, or no object, or has no scope that is known
  raised : Deserialized

-- data.get(key)
abbrev pub value_at : Fields → String → Value
unfolding get_field
value_at fields key = elim (get_field fields key) [ none ↦ null | some v ↦ v ]

unfoldable pub stored_of : Fields → UsageScope → StoredUsage
unfolding get_field
stored_of fields scope = record {
  scope = scope;
  input_total = value_at fields "input_total";
  cache_read = value_at fields "cache_read";
  cache_write = value_at fields "cache_write";
  uncached_input = value_at fields "uncached_input";
  output_total = value_at fields "output_total";
  reasoning_output = value_at fields "reasoning_output";
  cost = value_at fields "cost";
}

-- From the loaded data on.
unfoldable pub read_usage : Value → Deserialized
unfolding get_field stored_of
read_usage (object fields) = elim (get_field fields "scope") [
  | none ↦ raised
  | some v ↦ elim (scope_of v) [ none ↦ raised | some scope ↦ stored (stored_of fields scope) ]
]
read_usage _ = raised

abbrev read_or : Option Value → Deserialized
unfolding read_usage
read_or none = raised
read_or (some v) = read_usage v

module _ (loads : String → Option Value) where
  unfoldable pub deserialize_usage : Option String → Deserialized
  unfolding read_or
  deserialize_usage none = absent
  deserialize_usage (some raw) = if str_eq raw "" then absent else read_or (loads raw)

module _ (dumps : Value → String) where
  unfoldable pub serialize_usage : NormalizedUsage → String
  serialize_usage usage = dumps (object (as_dict usage))

  unfoldable pub snapshot_for_lineage : Option NormalizedUsage → Option String
  unfolding serialize_usage
  snapshot_for_lineage none = none
  snapshot_for_lineage (some usage) =
      if is_cumulative usage.scope then some (serialize_usage usage) else none

unfoldable pub guard_output_baseline : Option NormalizedUsage → Option ℤ
guard_output_baseline none = none
guard_output_baseline (some baseline) =
    if is_cumulative baseline.scope then baseline.output_total else none

-- One field of `_subtract`; none where it returns None.
abbrev pub subtract_field : Option ℤ → Option ℤ → Option (Option ℤ)
subtract_field none base = some none
subtract_field (some cur) none = some (some cur)
subtract_field (some cur) (some base) =
    let diff = cur -ℤ base in if lt_int diff (pos 0) then none else some (some diff)

infixl 20 ◌>>=◌
abbrev ◌>>=◌ : {A B : Type 0} → Option A → (A → Option B) → Option B
none >>= f = none
some a >>= f = f a

unfoldable pub subtract : NormalizedUsage → NormalizedUsage → Option NormalizedUsage
subtract current baseline = do
  input_total ← subtract_field current.input_total baseline.input_total
  cache_read ← subtract_field current.cache_read baseline.cache_read
  cache_write ← subtract_field current.cache_write baseline.cache_write
  uncached_input ← subtract_field current.uncached_input baseline.uncached_input
  output_total ← subtract_field current.output_total baseline.output_total
  reasoning_output ← subtract_field current.reasoning_output baseline.reasoning_output
  some (record {
    scope = current.scope;
    input_total = input_total;
    cache_read = cache_read;
    cache_write = cache_write;
    uncached_input = uncached_input;
    output_total = output_total;
    reasoning_output = reasoning_output;
    cost = none;
  })

abbrev pub same_session : Option String → Option String → Bool
same_session none none = true
same_session (some a) (some b) = str_eq a b
same_session _ _ = false

abbrev pub delta_or_unknown : Option NormalizedUsage → Option NormalizedUsage × Option String
delta_or_unknown none = (none, some "unknown")
delta_or_unknown (some delta) = (some delta, some "ok")

-- A cumulative `current`, against the baseline of the session.
unfoldable pub delta_from :
    NormalizedUsage → Option NormalizedUsage → Bool → Option NormalizedUsage × Option String
unfolding subtract
delta_from current none same = (some current, some "ok")
delta_from current (some baseline) same =
    if same then delta_or_unknown (subtract current baseline) else (some current, some "ok")

unfoldable pub compute_usage_delta :
    Option NormalizedUsage
    → Option NormalizedUsage
    → Option String
    → Option String
    → Option NormalizedUsage × Option String
unfolding delta_from
compute_usage_delta none baseline session baseline_session = (none, none)
compute_usage_delta (some current) baseline session baseline_session =
    if is_cumulative current.scope
    then delta_from current baseline (same_session session baseline_session)
    else (some current, some "ok")
