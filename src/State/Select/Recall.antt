-- ===== src/State/Select/Recall.antt =====
-- `structural_recall_eligible` against `select_handler` of format1/runtime.rs: a deferred event is
-- left where it is exactly while dispatching it would defer it again.
use determa_state_rust.Prelude.{
  ℕ, String, Bool, true, false, Option, none, some, List, [], ◌∷◌, ◌≡◌, ◌≢◌, ◌↔◌, refl, Every,
  Option-cases, inl, inr,
}
use determa_state_rust.State.Paths.{StatePath}
use determa_state_rust.State.Machine.{Guard, CompiledTransition, State, RuntimeState}
use determa_state_rust.State.Outcome.{Outcome, ok, fault, panic, out_of_fuel, ◌>>=◌}
use determa_state_rust.State.Config.{candidates}
use determa_state_rust.State.Search.{state_at, scan}
use determa_state_rust.State.Search.Entries.{every_lookup, lookup_of_state_at}
use determa_state_rust.State.Search.Unvisited.{or_else}
use determa_state_rust.State.Search.Simulates.{Sim, Sim-scan, Sim-bind}
use determa_state_rust.State.Select.{
  HandlerSelection, handled, deferred, get, defers, enabled_in, choose, decide_at, or_unhandled,
  select_handler, recall_in, recall_at, or_eligible, structural_recall_eligible, first_enabled,
}

module _ {J : Type 0} where
  -- Whatever the guards say, a refused recall is a deferral.
  abbrev Defers : Bool → Outcome (Option (HandlerSelection J)) → Type 0
  Defers true y = Unit
  Defers false y = y ≡ ok (some deferred)

  Defers-kept :
      (b : Bool) (y : Outcome (Option (HandlerSelection J)))
      (k : Unit {0} → Outcome (Option (HandlerSelection J)))
      → Defers b y
      → Defers b (y >>= or_else k)
  Defers-kept true y k h = tt
  Defers-kept false y k h = rw h

  recall_in-Defers :
      (ask : Guard J → Option Bool) (p : StatePath) (h : Option (List (CompiledTransition J)))
      (may_defer : Bool)
      → Sim Defers (recall_in h may_defer) (enabled_in ask h >>= choose p may_defer)
  unfolding recall_in enabled_in choose
  recall_in-Defers ask p (some ts) may_defer = tt
  recall_in-Defers ask p none true = refl
  recall_in-Defers ask p none false = refl

  recall_at-Defers :
      (ask : StatePath → Guard J → Option Bool) (rt : RuntimeState J) (event : String)
      (p : StatePath)
      → Sim Defers (recall_at rt event p) (decide_at ask rt event p)
  unfolding recall_at decide_at
  recall_at-Defers ask rt event p =
      Sim-bind Defers Defers-kept (state_at rt.definition p) _ _
        (λ s _. recall_in-Defers (ask p) p (get event s.handlers) (defers s event))

  deferred_of_refused :
      (ask : StatePath → Guard J → Option Bool) (fuel : ℕ) (rt : RuntimeState J) (event : String)
      → structural_recall_eligible fuel rt event ≡ ok false
      → select_handler ask fuel rt event ≡ ok deferred
  unfolding structural_recall_eligible select_handler
  deferred_of_refused ask fuel rt event h =
      go (scan rt.definition (recall_at rt event) fuel [] (candidates rt)) _
        (Sim-scan Defers Defers-kept rt.definition (recall_at rt event) (decide_at ask rt event)
          (recall_at-Defers ask rt event) fuel (candidates rt))
        h
    where
      go :
          (x : Outcome (Option Bool)) (y : Outcome (Option (HandlerSelection J)))
          → Sim Defers x y
          → (x >>= λ d. ok (or_eligible d)) ≡ ok false
          → (y >>= λ d. ok (or_unhandled d)) ≡ ok deferred
      go (ok (some false)) y s e = rw s
      go _ y s e = cc

  -- No handler of the event is an empty list of transitions.
  abbrev pub HasTransition : String → StatePath × State J → Type 0
  HasTransition event e = get event e.1.handlers ≢ some []

  -- With guards that all pass, a granted recall is a transition.
  abbrev Handles : Bool → Outcome (Option (HandlerSelection J)) → Type 0
  Handles true y = (p : StatePath) × (t : CompiledTransition J) × (y ≡ ok (some (handled p t)))
  Handles false y = y ≡ ok (some deferred)

  Handles-kept :
      (b : Bool) (y : Outcome (Option (HandlerSelection J)))
      (k : Unit {0} → Outcome (Option (HandlerSelection J)))
      → Handles b y
      → Handles b (y >>= or_else k)
  Handles-kept true y k (p, t, h) = (p, t, rw h)
  Handles-kept false y k h = rw h

  abbrev pub all_pass : StatePath → Guard J → Option Bool
  all_pass p g = some true

  first_passes :
      (p : StatePath) (t : CompiledTransition J) (ts : List (CompiledTransition J))
      → first_enabled (all_pass p) (t ∷ ts) ≡ ok (some t)
  unfolding first_enabled
  first_passes p t ts = elim (Option-cases t.guard) [ inl e ↦ rw e | inr (g, e) ↦ rw e ]

  recall_in-Handles :
      (p : StatePath) (h : Option (List (CompiledTransition J))) (may_defer : Bool)
      → h ≢ some []
      → Sim Handles (recall_in h may_defer) (enabled_in (all_pass p) h >>= choose p may_defer)
  unfolding recall_in enabled_in choose
  recall_in-Handles p (some []) may_defer n = absurd (n refl)
  recall_in-Handles p (some (t ∷ ts)) may_defer n = (p, t, rw (first_passes p t ts))
  recall_in-Handles p none true n = refl
  recall_in-Handles p none false n = refl

  recall_at-Handles :
      (rt : RuntimeState J) (event : String)
      → Every (HasTransition event) rt.definition.states
      → (p : StatePath) → Sim Handles (recall_at rt event p) (decide_at all_pass rt event p)
  unfolding recall_at decide_at
  recall_at-Handles rt event full p =
      Sim-bind Handles Handles-kept (state_at rt.definition p) _ _ (λ s found.
        recall_in-Handles p (get event s.handlers) (defers s event) (
          every_lookup (HasTransition event) rt.definition.states p s full
            (lookup_of_state_at rt.definition p s found)))

  refused_of_deferred :
      (fuel : ℕ) (rt : RuntimeState J) (event : String)
      → Every (HasTransition event) rt.definition.states
      → select_handler all_pass fuel rt event ≡ ok deferred
      → structural_recall_eligible fuel rt event ≡ ok false
  unfolding structural_recall_eligible select_handler
  refused_of_deferred fuel rt event full h =
      go (scan rt.definition (recall_at rt event) fuel [] (candidates rt)) _
        (Sim-scan Handles Handles-kept rt.definition (recall_at rt event)
          (decide_at all_pass rt event) (recall_at-Handles rt event full) fuel (candidates rt))
        h
    where
      go :
          (x : Outcome (Option Bool)) (y : Outcome (Option (HandlerSelection J)))
          → Sim Handles x y
          → (y >>= λ d. ok (or_unhandled d)) ≡ ok deferred
          → (x >>= λ d. ok (or_eligible d)) ≡ ok false
      go (ok (some false)) y s e = refl
      go (ok (some true)) y (p, t, s) e = cc (rw s at e)
      go (ok none) y s e = cc (rw s at e)
      go (fault x) y s e = cc (rw s at e)
      go panic y s e = cc (rw s at e)
      go out_of_fuel y s e = cc (rw s at e)

  -- Where no handler of the event is an empty list, the recall of a deferred event is refused
  -- exactly if dispatching the event would defer it whatever the guards say.
  pub recall_refused_iff :
      (fuel : ℕ) (rt : RuntimeState J) (event : String)
      → Every (HasTransition event) rt.definition.states
      → (structural_recall_eligible fuel rt event ≡ ok false) ↔ (
          (ask : StatePath → Guard J → Option Bool)
          → select_handler ask fuel rt event ≡ ok deferred)
  recall_refused_iff fuel rt event full = (
    λ h ask. deferred_of_refused ask fuel rt event h,
    λ h. refused_of_deferred fuel rt event full (h all_pass),
  )
