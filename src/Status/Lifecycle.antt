-- ===== src/Status/Lifecycle.antt =====
-- The life of a task: the transition table against its description as a relation, and what holds of
-- every sequence of asserted transitions.
use wastech_orchestrator.Prelude.{
  ℕ, ◌≤◌, ◌<◌, ◌≡◌, refl, ◌≢◌, ◌↔◌, inl, inr, true, false, List, [], ◌∷◌, length, In, arith,
}
use wastech_orchestrator.Status.{
  Status, new, validated, preparing, running, done, failed, manual_action_required, pending,
  permitted, can_transition, assert_transition, is_terminal, is_active,
}

-- The edges that the module's documentation draws: the happy path, the queue's two exits, and the
-- bailouts of every status that is not terminal.
pub data Step : Status → Status → Type 0 where
  accept : Step new validated
  prepare : Step validated preparing
  start : Step preparing running
  finish : Step running done
  admit : Step pending validated
  resume : Step pending preparing
  fail : {s : Status} → is_terminal s ≡ false → Step s failed
  park : {s : Status} → is_terminal s ≡ false → Step s manual_action_required

can_transition_sound : (s t : Status) → can_transition s t ≡ true → Step s t
unfolding can_transition is_terminal
can_transition_sound new validated h = accept
can_transition_sound validated preparing h = prepare
can_transition_sound preparing running h = start
can_transition_sound running done h = finish
can_transition_sound pending validated h = admit
can_transition_sound pending preparing h = resume
can_transition_sound new failed h = fail refl
can_transition_sound validated failed h = fail refl
can_transition_sound preparing failed h = fail refl
can_transition_sound running failed h = fail refl
can_transition_sound pending failed h = fail refl
can_transition_sound new manual_action_required h = park refl
can_transition_sound validated manual_action_required h = park refl
can_transition_sound preparing manual_action_required h = park refl
can_transition_sound running manual_action_required h = park refl
can_transition_sound pending manual_action_required h = park refl
can_transition_sound _ _ h = cc

bailout_allowed :
    (s : Status)
    → is_terminal s ≡ false
    → (can_transition s failed ≡ true) × (can_transition s manual_action_required ≡ true)
unfolding can_transition is_terminal
bailout_allowed done h = cc
bailout_allowed failed h = cc
bailout_allowed manual_action_required h = cc
bailout_allowed _ h = (refl, refl)

can_transition_complete : {s t : Status} → Step s t → can_transition s t ≡ true
unfolding can_transition
can_transition_complete accept = refl
can_transition_complete prepare = refl
can_transition_complete start = refl
can_transition_complete finish = refl
can_transition_complete admit = refl
can_transition_complete resume = refl
can_transition_complete (fail {s} h) = (bailout_allowed s h).0
can_transition_complete (park {s} h) = (bailout_allowed s h).1

-- The built table allows a transition exactly where it is one of the six ordinary ones, or one from
-- a status that is not terminal to `failed` or `manual_action_required`.
pub can_transition-Step : (s t : Status) → (can_transition s t ≡ true) ↔ Step s t
can_transition-Step s t = (can_transition_sound s t, can_transition_complete)

-- A life: the statuses that `assert_transition` accepted one after the other, from `s`.
pub data Life : Status → List Status → Type 0 where
  stop : {s : Status} → Life s []
  go :
      {s t : Status} {rest : List Status}
      → assert_transition s t ≡ permitted
      → Life t rest
      → Life s (t ∷ rest)

asserted-Step : (s t : Status) → assert_transition s t ≡ permitted → Step s t
unfolding assert_transition
asserted-Step s t h = can_transition_sound s t (ground arith)

-- How many transitions are left at most.
abbrev pub remaining : Status → ℕ
remaining pending = 4
remaining new = 4
remaining validated = 3
remaining preparing = 2
remaining running = 1
remaining _ = 0

Step-remaining_lt : {s t : Status} → Step s t → remaining t < remaining s
unfolding is_terminal
Step-remaining_lt accept = omega arith
Step-remaining_lt prepare = omega arith
Step-remaining_lt start = omega arith
Step-remaining_lt finish = omega arith
Step-remaining_lt admit = omega arith
Step-remaining_lt resume = omega arith
Step-remaining_lt (fail {s} h) = ground arith
Step-remaining_lt (park {s} h) = ground arith

-- At most `remaining s` permitted transitions follow one another from `s`: four from `new` or
-- `pending`, none from a terminal status.
pub Life-length_le : {s : Status} {path : List Status} → Life s path → length path ≤ remaining s
Life-length_le stop = omega arith
Life-length_le (go {s} {t} h rest) =
    omega (arith, Step-remaining_lt (asserted-Step s t h), Life-length_le rest)

into_done : {s t : Status} → Step s t → t ≡ done → s ≡ running
into_done accept e = cc
into_done prepare e = cc
into_done start e = cc
into_done finish e = refl
into_done admit e = cc
into_done resume e = cc
into_done (fail h) e = cc
into_done (park h) e = cc

into_running : {s t : Status} → Step s t → t ≡ running → s ≡ preparing
into_running accept e = cc
into_running prepare e = cc
into_running start e = refl
into_running finish e = cc
into_running admit e = cc
into_running resume e = cc
into_running (fail h) e = cc
into_running (park h) e = cc

-- The statuses that a life passes through, its first included.
abbrev pub visited : Status → List Status → List Status
visited s path = s ∷ path

running_visited :
    {s : Status} {path : List Status} → Life s path → In running path → In preparing (s ∷ path)
running_visited stop h = absurd h
running_visited (go {s} {t} h rest) (inl e) = inl (sym_into s t h e)
  where
    sym_into : (a b : Status) → assert_transition a b ≡ permitted → running ≡ b → preparing ≡ a
    sym_into a b k p = cc (into_running (asserted-Step a b k) (cc))
running_visited (go h rest) (inr m) = inr (running_visited rest m)

done_visited :
    {s : Status} {path : List Status} → Life s path → In done path → In running (s ∷ path)
done_visited stop h = absurd h
done_visited (go {s} {t} h rest) (inl e) = inl (sym_into s t h e)
  where
    sym_into : (a b : Status) → assert_transition a b ≡ permitted → done ≡ b → running ≡ a
    sym_into a b k p = cc (into_done (asserted-Step a b k) (cc))
done_visited (go h rest) (inr m) = inr (done_visited rest m)

-- A sequence of permitted transitions from a status other than `running` that reaches `done` has
-- `running` in it, and `preparing` in it or at its start.
pub done_needs_run :
    {s : Status} {path : List Status}
    → Life s path
    → s ≢ running
    → In done path
    → In running path × In preparing (s ∷ path)
done_needs_run life fresh d = elim (done_visited life d) [
  | inl e ↦ absurd (fresh (cc))
  | inr m ↦ (m, running_visited life m)
]

-- A status is terminal exactly where no transition leaves it, and then it is not active.
pub is_terminal-stuck :
    (s : Status)
    → ((is_terminal s ≡ true) ↔ ((t : Status) → can_transition s t ≡ false))
      × (is_terminal s ≡ true → is_active s ≡ false)
unfolding is_terminal is_active can_transition
is_terminal-stuck done = ((λ _ t. closed t, λ _. refl), λ _. refl)
  where
    closed : (t : Status) → can_transition done t ≡ false
    closed new = refl
    closed _ = refl
is_terminal-stuck failed = ((λ _ t. closed t, λ _. refl), λ _. refl)
  where
    closed : (t : Status) → can_transition failed t ≡ false
    closed new = refl
    closed _ = refl
is_terminal-stuck manual_action_required = ((λ _ t. closed t, λ _. refl), λ _. refl)
  where
    closed : (t : Status) → can_transition manual_action_required t ≡ false
    closed new = refl
    closed _ = refl
is_terminal-stuck _ = ((λ e. cc, λ h. cc (h failed)), λ e. cc)
