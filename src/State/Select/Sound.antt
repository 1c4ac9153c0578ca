-- ===== src/State/Select/Sound.antt =====
-- What `select_handler` of format1/runtime.rs may return as handled.
use determa_state_rust.Prelude.{
  ℕ, zero, suc, String, Bool, true, false, Option, none, some, List, [], ◌∷◌, ◌≡◌, ◌⊎◌, inl, inr,
  refl,
}
use determa_state_rust.State.Paths.{StatePath}
use determa_state_rust.State.Machine.{Guard, CompiledTransition, State, Machine, RuntimeState}
use determa_state_rust.State.Outcome.{Outcome, ok, fault, panic, out_of_fuel, ◌>>=◌}
use determa_state_rust.State.Config.{candidates}
use determa_state_rust.State.Search.{lookup, parent_of, state_at, scan}
use determa_state_rust.State.Search.Entries.{lookup_of_state_at}
use determa_state_rust.State.Search.Unvisited.{or_else, climb_all, scan_all, scan-eq-scan_all}
use determa_state_rust.State.Select.{
  HandlerSelection, handled, get, defers, answered, try_transition, first_enabled, enabled_in,
  choose, decide_at, or_unhandled, select_handler, guard_failed,
}

-- Inversion of a successful step.
bind-eq-ok {ℓ κ} :
    {A : Type ℓ} {B : Type κ} (m : Outcome A) (f : A → Outcome B) {b : B}
    → (m >>= f) ≡ ok b
    → (a : A) × (m ≡ ok a) × (f a ≡ ok b)
bind-eq-ok (ok a) f h = (a, refl, h)
bind-eq-ok (fault e) f h = cc
bind-eq-ok panic f h = cc
bind-eq-ok out_of_fuel f h = cc

module _ {J D : Type 0} (m : Machine J) (decide : StatePath → Outcome (Option D)) (d : D) where
  abbrev Decided : Type 0
  Decided = (p : StatePath) × (decide p ≡ ok (some d))

  Decided-or_else :
      (x n : Outcome (Option D))
      → (x >>= or_else (λ _. n)) ≡ ok (some d)
      → (x ≡ ok (some d)) ⊎ (n ≡ ok (some d))
  Decided-or_else (ok (some e)) n h = inl h
  Decided-or_else (ok none) n h = inr h
  Decided-or_else (fault e) n h = inl h
  Decided-or_else panic n h = inl h
  Decided-or_else out_of_fuel n h = inl h

  climb-Decided :
      (fuel : ℕ) (c : Option StatePath) → climb_all m decide fuel c ≡ ok (some d) → Decided
  unfolding climb_all
  climb-Decided zero c h = cc
  climb-Decided (suc fuel) none h = cc
  climb-Decided (suc fuel) (some p) h =
      elim (Decided-or_else (decide p) (parent_of m p >>= climb_all m decide fuel) h) [
        | inl here ↦ (p, here)
        | inr above ↦
            let (c, _, up) = bind-eq-ok (parent_of m p) (climb_all m decide fuel) above in
            climb-Decided fuel c up
      ]

  scan_all-Decided :
      (fuel : ℕ) (leaves : List StatePath) → scan_all m decide fuel leaves ≡ ok (some d) → Decided
  unfolding scan_all
  scan_all-Decided fuel [] h = cc
  scan_all-Decided fuel (p ∷ leaves) h =
      elim (Decided-or_else (climb_all m decide fuel (some p)) (scan_all m decide fuel leaves) h) [
        | inl first ↦ climb-Decided fuel (some p) first
        | inr later ↦ scan_all-Decided fuel leaves later
      ]

  scan-Decided :
      (fuel : ℕ) (leaves : List StatePath) → scan m decide fuel [] leaves ≡ ok (some d) → Decided
  scan-Decided fuel leaves h =
      scan_all-Decided fuel leaves (rw (scan-eq-scan_all m decide fuel leaves) at h)

guard_failed-ne-ok :
    {A : Type 0} (pointer : Option String) (a : A) → guard_failed pointer ≡ ok a → ⊥
guard_failed-ne-ok none a h = cc
guard_failed-ne-ok (some p) a h = cc

module _ {J : Type 0} where
  -- No guard, or one that passed.
  abbrev pub Passes : (Guard J → Option Bool) → Option (Guard J) → Type 0
  Passes ask none = Unit
  Passes ask (some g) = ask g ≡ some true

  -- A guard that answered no.
  abbrev pub Refuses : (Guard J → Option Bool) → Option (Guard J) → Type 0
  Refuses ask none = ⊥
  Refuses ask (some g) = ask g ≡ some false

  -- `t` stands in the list, its guard passed, and every guard before it refused.
  abbrev pub FirstPassing :
      (Guard J → Option Bool) → CompiledTransition J → List (CompiledTransition J) → Type 0
  FirstPassing ask t [] = ⊥
  FirstPassing ask t (u ∷ us) =
      ((u ≡ t) × Passes ask u.guard) ⊎ (Refuses ask u.guard × FirstPassing ask t us)

  try-Passing :
      (ask : Guard J → Option Bool) (u : CompiledTransition J) (g : Option (Guard J))
      (rest : Outcome (Option (CompiledTransition J))) (t : CompiledTransition J)
      → try_transition ask u g rest ≡ ok (some t)
      → ((u ≡ t) × Passes ask g) ⊎ (Refuses ask g × (rest ≡ ok (some t)))
  unfolding try_transition
  try-Passing ask u none rest t h = inl (cc, tt)
  try-Passing ask u (some g) rest t h = go (ask g) refl h
    where
      go :
          (a : Option Bool)
          → ask g ≡ a
          → answered u a rest ≡ ok (some t)
          → ((u ≡ t) × (ask g ≡ some true)) ⊎ ((ask g ≡ some false) × (rest ≡ ok (some t)))
      go none e h = absurd (guard_failed-ne-ok u.guard_pointer (some t) h)
      go (some true) e h = inl (cc, e)
      go (some false) e h = inr (e, h)

  first-Passing :
      (ask : Guard J → Option Bool) (ts : List (CompiledTransition J)) (t : CompiledTransition J)
      → first_enabled ask ts ≡ ok (some t)
      → FirstPassing ask t ts
  unfolding first_enabled
  first-Passing ask [] t h = cc
  first-Passing ask (u ∷ us) t h = elim (try-Passing ask u u.guard (first_enabled ask us) t h) [
    | inl here ↦ inl here
    | inr (no_pass, later) ↦ inr (no_pass, first-Passing ask us t later)
  ]

  -- Why a transition of the state `p` was selected.
  pub record IsSelected (ask : StatePath → Guard J → Option Bool) (rt : RuntimeState J)
      (event : String) (p : StatePath) (t : CompiledTransition J) : Type 0 where
    pub source : State J
    pub transitions : List (CompiledTransition J)
    pub stored : lookup p rt.definition.states ≡ some source
    pub listed : get event source.handlers ≡ some transitions
    pub first : FirstPassing (ask p) t transitions

  choose-handled :
      (q p : StatePath) (t : CompiledTransition J) (may_defer : Bool)
      (c : Option (CompiledTransition J))
      → choose q may_defer c ≡ ok (some (handled p t))
      → (q ≡ p) × (c ≡ some t)
  unfolding choose
  choose-handled q p t may_defer (some u) h = (cc, cc)
  choose-handled q p t true none h = cc
  choose-handled q p t false none h = cc

  enabled-Passing :
      (ask : Guard J → Option Bool) (h : Option (List (CompiledTransition J)))
      (t : CompiledTransition J)
      → enabled_in ask h ≡ ok (some t)
      → (ts : List (CompiledTransition J)) × (h ≡ some ts) × FirstPassing ask t ts
  unfolding enabled_in
  enabled-Passing ask none t e = cc
  enabled-Passing ask (some ts) t e = (ts, refl, first-Passing ask ts t e)

  decide-IsSelected :
      (ask : StatePath → Guard J → Option Bool) (rt : RuntimeState J) (event : String)
      (q p : StatePath) (t : CompiledTransition J)
      → decide_at ask rt event q ≡ ok (some (handled p t))
      → IsSelected ask rt event p t
  unfolding decide_at
  decide-IsSelected ask rt event q p t h =
      let (s, found, rest) = bind-eq-ok (state_at rt.definition q) _ h in
      let (c, enabled, chosen) = bind-eq-ok (enabled_in (ask q) (get event s.handlers)) _ rest in
      let (same, taken) = choose-handled q p t (defers s event) c chosen in
      let (ts, listed, first) = enabled-Passing (ask q) (get event s.handlers) t (cc) in
      record {
        source = s;
        transitions = ts;
        stored = rw (← same) (lookup_of_state_at rt.definition q s found);
        listed = listed;
        first = rw (← same) first;
      }

  -- A handled event is handled by a transition of a state that is in the machine: the state lists
  -- transitions for the event, the guard of the selected one is absent or passed, and the guards
  -- of all those listed before it refused.
  pub select_handler-IsSelected :
      (ask : StatePath → Guard J → Option Bool) (fuel : ℕ) (rt : RuntimeState J) (event : String)
      (p : StatePath) (t : CompiledTransition J)
      → select_handler ask fuel rt event ≡ ok (handled p t)
      → IsSelected ask rt event p t
  unfolding select_handler
  select_handler-IsSelected ask fuel rt event p t h =
      let (d, found, same) =
        bind-eq-ok (scan rt.definition (decide_at ask rt event) fuel [] (candidates rt)) _ h in
      go d found (cc)
    where
      go :
          (d : Option (HandlerSelection J))
          → scan rt.definition (decide_at ask rt event) fuel [] (candidates rt) ≡ ok d
          → or_unhandled d ≡ handled p t
          → IsSelected ask rt event p t
      go none found same = cc
      go (some c) found same =
          let (q, here) =
            scan-Decided rt.definition (decide_at ask rt event) c fuel (candidates rt) found in
          decide-IsSelected ask rt event q p t (rw same at here)
