-- ===== src/State/Select.antt =====
-- `select_handler` and `structural_recall_eligible` of format1/runtime.rs. The guards are asked
-- through `ask`, which stands for `providers::guard(runtime, path, guard, Some(envelope))`; it is
-- `none` where that call fails. `event` is the envelope's event.
pub mod Recall
pub mod Sound
pub mod Innermost
pub mod Total
use determa_state_rust.Prelude.{
  ℕ, String, Bool, true, false, Option, none, some, List, [], ◌∷◌, any, str_eq, if◌then◌else◌,
}
use determa_state_rust.State.Paths.{StatePath}
use determa_state_rust.State.Machine.{Guard, CompiledTransition, State, RuntimeState}
use determa_state_rust.State.Outcome.{Outcome, ok, fault, panic, guard_fault, ◌>>=◌}
use determa_state_rust.State.Config.{candidates}
use determa_state_rust.State.Search.{state_at, scan}

pub data HandlerSelection (J : Type 0) : Type 0 where
  handled : StatePath → CompiledTransition J → HandlerSelection J
  deferred unhandled : HandlerSelection J

module _ {ℓ} {V : Type ℓ} where
  -- `map.get(name)` of a `BTreeMap` keyed by texts
  unfoldable pub get : String → List (String × V) → Option V
  get k [] = none
  get k ((j, v) ∷ l) = if str_eq j k then some v else get k l

-- `Err(StepFault { code: GuardFault, … guard_pointer.expect("guard pointer") })`
abbrev pub guard_failed {ℓ} : {A : Type ℓ} → Option String → Outcome A
guard_failed none = panic
guard_failed (some pointer) = fault (record { code = guard_fault; source_locator = pointer })

-- `deferred_events.iter().any(|event| event == &envelope.event)`
abbrev pub defers : {J : Type 0} → State J → String → Bool
defers s event = any (λ d. str_eq d event) s.deferred_events

abbrev pub or_eligible : Option Bool → Bool
or_eligible none = true
or_eligible (some b) = b

module _ {J : Type 0} where
  -- What the answer of a transition's guard leads to; `rest` is the loop over the later ones.
  pub answered :
      CompiledTransition J
      → Option Bool
      → Outcome (Option (CompiledTransition J))
      → Outcome (Option (CompiledTransition J))
  answered t none rest = guard_failed t.guard_pointer
  answered t (some true) rest = ok (some t)
  answered t (some false) rest = rest

  try_transition :
      (Guard J → Option Bool)
      → CompiledTransition J
      → Option (Guard J)
      → Outcome (Option (CompiledTransition J))
      → Outcome (Option (CompiledTransition J))
  unfolding answered
  try_transition ask t none rest = ok (some t)
  try_transition ask t (some g) rest = answered t (ask g) rest

  -- The `for transition in transitions` loop: the first transition that is enabled.
  first_enabled :
      (Guard J → Option Bool)
      → List (CompiledTransition J)
      → Outcome (Option (CompiledTransition J))
  unfolding try_transition
  first_enabled ask [] = ok none
  first_enabled ask (t ∷ ts) = try_transition ask t t.guard (first_enabled ask ts)

  -- `if let Some(transitions) = state.handlers.get(&envelope.event)`
  enabled_in :
      (Guard J → Option Bool)
      → Option (List (CompiledTransition J))
      → Outcome (Option (CompiledTransition J))
  unfolding first_enabled
  enabled_in ask none = ok none
  enabled_in ask (some ts) = first_enabled ask ts

  -- An enabled transition is taken; failing that, the event may be deferred here.
  choose : StatePath → Bool → Option (CompiledTransition J) → Outcome (Option (HandlerSelection J))
  choose p may_defer (some t) = ok (some (handled p t))
  choose p may_defer none = ok (if may_defer then some deferred else none)

  -- The body of the loop at a state that was not visited before.
  pub decide_at :
      (StatePath → Guard J → Option Bool)
      → RuntimeState J
      → String
      → StatePath
      → Outcome (Option (HandlerSelection J))
  unfolding enabled_in choose
  decide_at ask rt event p = state_at rt.definition p >>= λ s.
      enabled_in (ask p) (get event s.handlers) >>= choose p (defers s event)

  abbrev pub or_unhandled : Option (HandlerSelection J) → HandlerSelection J
  or_unhandled none = unhandled
  or_unhandled (some s) = s

  unfoldable pub select_handler :
      (StatePath → Guard J → Option Bool)
      → ℕ
      → RuntimeState J
      → String
      → Outcome (HandlerSelection J)
  unfolding decide_at
  select_handler ask fuel rt event =
      scan rt.definition (decide_at ask rt event) fuel [] (candidates rt) >>= λ d.
      ok (or_unhandled d)

  -- `structural_recall_eligible` at one state: whether the event may be recalled, if it shows here.
  recall_in : Option (List (CompiledTransition J)) → Bool → Outcome (Option Bool)
  recall_in (some ts) may_defer = ok (some true)
  recall_in none may_defer = ok (if may_defer then some false else none)

  recall_at : RuntimeState J → String → StatePath → Outcome (Option Bool)
  unfolding recall_in
  recall_at rt event p =
      state_at rt.definition p >>= λ s. recall_in (get event s.handlers) (defers s event)

  unfoldable pub structural_recall_eligible : ℕ → RuntimeState J → String → Outcome Bool
  unfolding recall_at
  structural_recall_eligible fuel rt event =
      scan rt.definition (recall_at rt event) fuel [] (candidates rt) >>= λ d. ok (or_eligible d)
