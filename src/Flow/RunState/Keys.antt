-- ===== src/Flow/RunState/Keys.antt =====
-- The keys of `loop_counters`: a named loop, an inline edge, a cumulative total and the global
-- counter do not collide, as long as the operator's loop names are plain.
use wastech_orchestrator.Prelude.{ℕ, ◌≡◌, refl, ◌≢◌, true, false, String, concat, arith}
use wastech_orchestrator.Prelude.Chars.{occurs, occurs-concat, ne_of_occurs}
use wastech_orchestrator.Flow.Schema.{Edge}
use wastech_orchestrator.Flow.RunState.{global_fix_key, total_prefix, total_key}
use wastech_orchestrator.Flow.LoopControl.{edge_key}

abbrev colon : ℕ
colon = b':'

-- A loop name that is not reserved: no colon in it, and not the key of the global counter.
pub record IsPlain (loop : String) : Type 0 where
  pub no_colon : occurs colon loop ≡ false
  pub not_global : loop ≢ global_fix_key

total_key-colon : (loop : String) → occurs colon (total_key loop) ≡ true
unfolding occurs
total_key-colon loop = ground (arith, occurs-concat colon total_prefix loop)

colon_in_middle :
    (a b d rest : String) → occurs colon (concat a (concat b (concat d (concat ":" rest)))) ≡ true
unfolding occurs
colon_in_middle a b d rest = ground (
  arith,
  occurs-concat colon a (concat b (concat d (concat ":" rest))),
  occurs-concat colon b (concat d (concat ":" rest)),
  occurs-concat colon d (concat ":" rest),
  occurs-concat colon ":" rest,
)

edge_key-colon : (edge : Edge) → occurs colon (edge_key edge) ≡ true
edge_key-colon edge = colon_in_middle edge.from_node "->" edge.to _

global-colon : occurs colon global_fix_key ≡ false
unfolding occurs
global-colon = refl

pub total_key-ne-global : (loop : String) → total_key loop ≢ global_fix_key
total_key-ne-global loop = ne_of_occurs colon _ _ (total_key-colon loop) global-colon

pub edge_key-ne-global : (edge : Edge) → edge_key edge ≢ global_fix_key
edge_key-ne-global edge = ne_of_occurs colon _ _ (edge_key-colon edge) global-colon

pub total_key-ne-plain : (l loop : String) → IsPlain loop → total_key l ≢ loop
total_key-ne-plain l loop p = ne_of_occurs colon _ _ (total_key-colon l) p.no_colon

pub edge_key-ne-plain : (edge : Edge) (loop : String) → IsPlain loop → edge_key edge ≢ loop
edge_key-ne-plain edge loop p = ne_of_occurs colon _ _ (edge_key-colon edge) p.no_colon
