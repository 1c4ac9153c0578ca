-- ===== src/State/Boundary.antt =====
-- The boundary of a transition in format1/runtime.rs: `ancestors_to_root`, `lowest_common_ancestor`,
-- `transition_boundary`, and the states that `perform_transition` exits.
pub mod Ancestors
pub mod Encloses
pub mod Exits
pub mod Closed
use determa_state_rust.Prelude.{
  ℕ, zero, suc, Bool, not, Option, none, some, List, [], ◌∷◌, ◌&&◌, ◌||◌, filter, find,
  if◌then◌else◌,
}
use determa_state_rust.State.Paths.{StatePath, root, path_eq, is_descendant}
use determa_state_rust.State.Machine.{Machine, RuntimeState}
use determa_state_rust.State.Outcome.{Outcome, ok, panic, out_of_fuel, ◌>>=◌}
use determa_state_rust.State.Search.{contains, parent_of}
use determa_state_rust.State.ByDepth.{sort_by_depth}

-- `expect`
abbrev pub expected {ℓ} : {A : Type ℓ} → Option A → Outcome A
expected none = panic
expected (some a) = ok a

module _ {J : Type 0} where
  pub ancestors_to_root : Machine J → ℕ → Option StatePath → Outcome (List StatePath)
  ancestors_to_root m zero current = out_of_fuel
  ancestors_to_root m (suc fuel) none = ok []
  ancestors_to_root m (suc fuel) (some p) =
      parent_of m p >>= λ parent. ancestors_to_root m fuel parent >>= λ rest. ok (p ∷ rest)

  pub lowest_common_ancestor : Machine J → ℕ → StatePath → StatePath → Outcome StatePath
  lowest_common_ancestor m fuel left right =
      ancestors_to_root m fuel (some left) >>= λ left_ancestors.
      ancestors_to_root m fuel (some right) >>= λ right_ancestors.
      expected (find (λ p. contains p left_ancestors) right_ancestors)

  unfoldable pub parent_expected : Machine J → StatePath → Outcome StatePath
  parent_expected m p = parent_of m p >>= expected

  unfoldable pub transition_boundary :
      Machine J → ℕ → StatePath → StatePath → Bool → Outcome StatePath
  transition_boundary m fuel source target local =
      if path_eq source target
      then parent_expected m source
      else if is_descendant target source
      then (if path_eq source root || local then ok source else parent_expected m source)
      else if is_descendant source target
      then ok target
      else lowest_common_ancestor m fuel source target

  -- `exits` of `perform_transition`, in the order in which it exits them
  unfoldable pub exits : RuntimeState J → StatePath → List StatePath
  exits rt boundary =
      sort_by_depth (filter (λ p. not (path_eq p boundary) && is_descendant p boundary) rt.active)

-- `runtime.active.remove(path)` of `exit_state`
abbrev pub remove_active : StatePath → List StatePath → List StatePath
remove_active p active = filter (λ q. not (path_eq q p)) active

-- `exit_state`, on the active states. `leave` cleans up the state's children, runs its exit actions and drops
-- its variables: it may fault, and leaves the other active states alone.
unfoldable pub exit_state :
    (StatePath → Outcome (Unit {0})) → StatePath → List StatePath → Outcome (List StatePath)
exit_state leave p active = leave p >>= λ _. ok (remove_active p active)

-- The loop of `perform_transition` over the exits.
unfoldable pub exit_states :
    (StatePath → Outcome (Unit {0})) → List StatePath → List StatePath → Outcome (List StatePath)
unfolding exit_state
exit_states leave [] active = ok active
exit_states leave (p ∷ paths) active = exit_state leave p active >>= exit_states leave paths
