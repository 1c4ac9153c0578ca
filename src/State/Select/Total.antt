-- ===== src/State/Select/Total.antt =====
-- `select_handler` of format1/runtime.rs returns: it neither panics nor runs on.
use determa_state_rust.Prelude.{
  ℕ, ◌+◌, ◌<◌, String, Bool, true, false, Option, none, some, List, [], ◌∷◌, ◌≡◌, refl, Every,
  str_eq, Bool-cases, inl, inr,
}
use determa_state_rust.State.Paths.{StatePath, path_depth}
use determa_state_rust.State.Machine.{Guard, CompiledTransition, State, RuntimeState}
use determa_state_rust.State.Outcome.{Outcome, Returns, Returns-bind}
use determa_state_rust.State.Config.{candidates}
use determa_state_rust.State.Config.Active.{Every-candidates}
use determa_state_rust.State.Search.{scan}
use determa_state_rust.State.Search.Entries.{every_lookup}
use determa_state_rust.State.Search.Total.{IsTree, IsKnown, state_at_known, scan-Returns}
use determa_state_rust.State.Select.{
  get, defers, answered, try_transition, first_enabled, enabled_in, choose, decide_at,
  select_handler,
}

module _ {J : Type 0} where
  -- A guard comes with the pointer that a failure of it reports.
  abbrev pub PointerFits : Option (Guard J) → Option String → Type 0
  PointerFits none pointer = Unit
  PointerFits (some g) none = ⊥
  PointerFits (some g) (some pointer) = Unit

  abbrev pub TransitionFits : CompiledTransition J → Type 0
  TransitionFits t = PointerFits t.guard t.guard_pointer

  abbrev pub HandlersFit : StatePath × State J → Type 0
  HandlersFit e =
      Every (λ (h : String × List (CompiledTransition J)). Every TransitionFits h.1) e.1.handlers

  answered-Returns :
      (t : CompiledTransition J) (g : Guard J) (pointer : Option String) (a : Option Bool)
      (rest : Outcome (Option (CompiledTransition J)))
      → t.guard_pointer ≡ pointer
      → PointerFits (some g) pointer
      → Returns rest
      → Returns (answered t a rest)
  unfolding answered
  answered-Returns t g none a rest e h r = absurd h
  answered-Returns t g (some p) none rest e h r = rw e tt
  answered-Returns t g (some p) (some true) rest e h r = tt
  answered-Returns t g (some p) (some false) rest e h r = r

  try-Returns :
      (ask : Guard J → Option Bool) (t : CompiledTransition J) (g : Option (Guard J))
      (rest : Outcome (Option (CompiledTransition J)))
      → PointerFits g t.guard_pointer
      → Returns rest
      → Returns (try_transition ask t g rest)
  unfolding try_transition
  try-Returns ask t none rest h r = tt
  try-Returns ask t (some g) rest h r = answered-Returns t g t.guard_pointer (ask g) rest refl h r

  first-Returns :
      (ask : Guard J → Option Bool) (ts : List (CompiledTransition J))
      → Every TransitionFits ts
      → Returns (first_enabled ask ts)
  unfolding first_enabled
  first-Returns ask [] e = tt
  first-Returns ask (t ∷ ts) e =
      try-Returns ask t t.guard (first_enabled ask ts) e.0 (first-Returns ask ts e.1)

  enabled-Returns :
      (ask : Guard J → Option Bool) (event : String)
      (l : List (String × List (CompiledTransition J)))
      → Every (λ (h : String × List (CompiledTransition J)). Every TransitionFits h.1) l
      → Returns (enabled_in ask (get event l))
  unfolding enabled_in get
  enabled-Returns ask event [] e = tt
  enabled-Returns ask event ((name, ts) ∷ l) e = elim (Bool-cases (str_eq name event)) [
    | inl a ↦ rw a (first-Returns ask ts e.0)
    | inr a ↦ rw a (enabled-Returns ask event l e.1)
  ]

  choose-Returns :
      (p : StatePath) (may_defer : Bool) (c : Option (CompiledTransition J))
      → Returns (choose p may_defer c)
  unfolding choose
  choose-Returns p may_defer none = tt
  choose-Returns p may_defer (some t) = tt

  decide-Returns :
      (ask : StatePath → Guard J → Option Bool) (rt : RuntimeState J) (event : String)
      → Every HandlersFit rt.definition.states
      → (p : StatePath) → IsKnown rt.definition p
      → Returns (decide_at ask rt event p)
  unfolding decide_at
  decide-Returns ask rt event fit p (s, found) = rw (state_at_known rt.definition p s found) (
      Returns-bind (enabled_in (ask p) (get event s.handlers)) _
        (enabled-Returns (ask p) event s.handlers
          (every_lookup HandlersFit rt.definition.states p s fit found))
        (λ c _. choose-Returns p (defers s event) c))

  -- In a tree of states whose guards all have pointers, with every active path in the tree and
  -- more fuel than the depth of any and one, selection comes to a selection or to a guard fault,
  -- whatever the guards answer: no lookup panics and the search ends.
  pub select_handler-Returns :
      (ask : StatePath → Guard J → Option Bool) (fuel : ℕ) (rt : RuntimeState J) (event : String)
      → IsTree rt.definition
      → Every HandlersFit rt.definition.states
      → Every (λ p. IsKnown rt.definition p × (path_depth p + 1 < fuel)) rt.active
      → Returns (select_handler ask fuel rt event)
  unfolding select_handler
  select_handler-Returns ask fuel rt event tree fit active =
      Returns-bind (scan rt.definition (decide_at ask rt event) fuel [] (candidates rt)) _
        (scan-Returns rt.definition (decide_at ask rt event) fuel (candidates rt) tree
          (decide-Returns ask rt event fit)
          (Every-candidates (λ p. IsKnown rt.definition p) rt (firsts rt.active active))
          (Every-candidates (λ p. path_depth p + 1 < fuel) rt (seconds rt.active active)))
        (λ d _. tt)
    where
      firsts :
          (l : List StatePath)
          → Every (λ p. IsKnown rt.definition p × (path_depth p + 1 < fuel)) l
          → Every (λ p. IsKnown rt.definition p) l
      firsts [] e = tt
      firsts (p ∷ l) e = (e.0.0, firsts l e.1)

      seconds :
          (l : List StatePath)
          → Every (λ p. IsKnown rt.definition p × (path_depth p + 1 < fuel)) l
          → Every (λ p. path_depth p + 1 < fuel) l
      seconds [] e = tt
      seconds (p ∷ l) e = (e.0.1, seconds l e.1)
