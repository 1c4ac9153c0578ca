-- ===== src/State/Active.antt =====
-- `validate_active_configuration` of format1/runtime.rs: what the active states of a restored runtime
-- must be. `fuel` bounds the states on the way up from an active one.
pub mod Sound
pub mod Total
use determa_state_rust.Prelude.{
  ℕ, zero, suc, Bool, true, false, not, Option, none, some, List, [], ◌∷◌, ◌==◌, ◌&&◌, any, filter,
  length, if◌then◌else◌,
}
use determa_state_rust.State.Paths.{StatePath, root}
use determa_state_rust.State.Machine.{
  CompiledStateKind, simple, composite, parallel, final, choice, State, Machine, RuntimeStatus,
  running, completed, faulted, RuntimeState,
}
use determa_state_rust.State.Outcome.{Outcome, ok, out_of_fuel, ◌>>=◌}
use determa_state_rust.State.Search.{lookup, contains, state_at, parent_of}

abbrev pub is_found {ℓ} : {A : Type ℓ} → Option A → Bool
is_found none = false
is_found (some a) = true

abbrev pub is_running : RuntimeStatus → Bool
is_running running = true
is_running completed = false
is_running faulted = false

-- `usize::from(!state.children.is_empty())`
abbrev pub expected_children : List StatePath → ℕ
expected_children [] = 0
expected_children (c ∷ children) = 1

-- The number of active children that a state of this kind may have; a choice and a final state may not be
-- active at all.
abbrev pub fits_kind : CompiledStateKind → List StatePath → ℕ → Bool
fits_kind simple children active = active == 0
fits_kind composite children active = active == expected_children children
fits_kind parallel children active = active == 0
fits_kind final children active = false
fits_kind choice children active = false

abbrev pub or_then : Outcome Bool → Outcome Bool → Outcome Bool
or_then first next = first >>= λ found. if found then ok true else next

module _ {J : Type 0} where
  -- The `while let Some(path) = parent` loop: whether a state above is not active.
  unfoldable pub orphan_up : Machine J → List StatePath → ℕ → Option StatePath → Outcome Bool
  orphan_up m active zero parent = out_of_fuel
  orphan_up m active (suc fuel) none = ok false
  orphan_up m active (suc fuel) (some p) =
      if contains p active then (parent_of m p >>= orphan_up m active fuel) else ok true

  -- `runtime.active.iter().any(…)`
  unfoldable pub any_orphan : Machine J → List StatePath → ℕ → List StatePath → Outcome Bool
  any_orphan m active fuel [] = ok false
  any_orphan m active fuel (p ∷ paths) =
      or_then (parent_of m p >>= orphan_up m active fuel) (any_orphan m active fuel paths)

  abbrev pub active_children : List StatePath → State J → ℕ
  active_children active s = length (filter (λ c. contains c active) s.children)

  -- The `for path in &runtime.active` loop
  unfoldable pub kinds_fit : Machine J → List StatePath → List StatePath → Outcome Bool
  kinds_fit m active [] = ok true
  kinds_fit m active (p ∷ paths) =
      let rest = kinds_fit m active paths in
      state_at m p >>= λ s.
      if fits_kind s.kind s.children (active_children active s) then rest else ok false

  unfoldable pub validate_active_configuration : ℕ → RuntimeState J → Outcome Bool
  validate_active_configuration fuel rt =
      if any (λ p. not (is_found (lookup p rt.definition.states))) rt.active
      then ok false
      else (any_orphan rt.definition rt.active fuel rt.active >>= λ orphan.
          if orphan
          then ok false
          else if is_running rt.status && not (contains root rt.active)
          then ok false
          else kinds_fit rt.definition rt.active rt.active)
