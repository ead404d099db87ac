-- ===== src/Examples/Lives.antt =====
-- The state machine's theorems at one life of a task.
use wastech_orchestrator.Prelude.{◌≡◌, refl, ◌↔◌, true, [], ◌∷◌}
use wastech_orchestrator.Status.{
  new, validated, preparing, running, done, can_transition, assert_transition,
}
use wastech_orchestrator.Status.Lifecycle.{Step, can_transition-Step, Life, stop, go}

whole-Life : Life new (validated ∷ preparing ∷ running ∷ done ∷ [])
unfolding assert_transition
whole-Life = go refl (go refl (go refl (go refl stop)))

can_transition-Step_example : (can_transition running done ≡ true) ↔ Step running done
can_transition-Step_example = can_transition-Step running done
