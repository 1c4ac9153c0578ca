-- ===== src/State/Search.antt =====
-- The search of `select_handler` and `structural_recall_eligible` in format1/runtime.rs: from each
-- candidate up through its parents, past the states that were visited before. Both functions write
-- the loop out; they differ in what decides at one state.
pub mod Entries
pub mod Unvisited
pub mod Total
pub mod Simulates
pub mod Innermost
use determa_state_rust.Prelude.{
  ℕ, zero, suc, Bool, true, false, Option, none, some, List, [], ◌∷◌, ◌&&◌, ◌||◌, any,
  if◌then◌else◌,
}
use determa_state_rust.State.Paths.{StatePath, path_eq}
use determa_state_rust.State.Machine.{State, Machine}
use determa_state_rust.State.Outcome.{Outcome, ok, panic, out_of_fuel, ◌>>=◌}

module _ {ℓ} {V : Type ℓ} where
  -- `map.get(path)` of a `BTreeMap` keyed by paths
  unfoldable pub lookup : StatePath → List (StatePath × V) → Option V
  lookup p [] = none
  lookup p ((q, v) ∷ l) = if path_eq p q then some v else lookup p l

abbrev pub contains : StatePath → List StatePath → Bool
contains p l = any (path_eq p) l

module _ {D : Type 0} where
  -- Once a state was asked: its decision ends the search, or the search goes up, with the state
  -- among the visited ones.
  resume :
      StatePath
      → List StatePath
      → (List StatePath → Outcome (Option D × List StatePath))
      → Option D
      → Outcome (Option D × List StatePath)
  resume p visited up (some x) = ok (some x, p ∷ visited)
  resume p visited up none = up (p ∷ visited)

  -- `if !visited.insert(path.clone()) { … continue; }`, and the rest of the loop's body.
  visit :
      Bool
      → Outcome (Option D)
      → StatePath
      → List StatePath
      → (List StatePath → Outcome (Option D × List StatePath))
      → Outcome (Option D × List StatePath)
  unfolding resume
  visit true decision p visited up = up visited
  visit false decision p visited up = decision >>= resume p visited up

module _ {J : Type 0} where
  or_panic : Option (State J) → Outcome (State J)
  or_panic none = panic
  or_panic (some s) = ok s

  -- `runtime.definition.states[&path]`
  unfoldable pub state_at : Machine J → StatePath → Outcome (State J)
  unfolding or_panic lookup
  state_at m p = or_panic (lookup p m.states)

  unfoldable pub parent_of : Machine J → StatePath → Outcome (Option StatePath)
  unfolding state_at
  parent_of m p = state_at m p >>= λ s. ok s.parent

  module _ {D : Type 0} (m : Machine J) (decide : StatePath → Outcome (Option D)) where
    -- The `while let Some(path) = current` loop, with the visited states beside the decision.
    unfoldable pub climb :
        ℕ → List StatePath → Option StatePath → Outcome (Option D × List StatePath)
    unfolding visit
    climb zero visited current = out_of_fuel
    climb (suc fuel) visited none = ok (none, visited)
    climb (suc fuel) visited (some p) =
        visit (contains p visited) (decide p) p visited (λ seen. parent_of m p >>= climb fuel seen)

    -- The `for leaf in candidates` loop; `fuel` bounds the states on the way up from a leaf.
    unfoldable pub scan : ℕ → List StatePath → List StatePath → Outcome (Option D)
    scan fuel visited [] = ok none
    scan fuel visited (leaf ∷ leaves) = climb fuel visited (some leaf) >>= λ r. elim r.0 [
      | some x ↦ ok (some x)
      | none ↦ scan fuel r.1 leaves
    ]
