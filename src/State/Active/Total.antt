-- ===== src/State/Active/Total.antt =====
-- `validate_active_configuration` of format1/runtime.rs ends and does not panic.
use determa_state_rust.Prelude.{
  ℕ, zero, suc, ◌+◌, ◌<◌, Bool, true, false, not, Option, none, some, List, [], ◌∷◌, ◌≡◌, inl, inr,
  ◌&&◌, any, Every, if◌then◌else◌, Bool-cases, arith,
}
use determa_state_rust.State.Paths.{StatePath, root, is_descendant, path_depth}
use determa_state_rust.State.Paths.Order.{depth-lt_of_descendant}
use determa_state_rust.State.Machine.{Machine, RuntimeState}
use determa_state_rust.State.Outcome.{Outcome, ok, ◌>>=◌, Returns, Returns-bind}
use determa_state_rust.State.Search.{lookup, contains, parent_of}
use determa_state_rust.State.Search.Total.{IsTree, IsKnown, ParentFits, parent_fits, state_at_known}
use determa_state_rust.State.Active.{
  is_found, is_running, fits_kind, orphan_up, any_orphan, active_children, kinds_fit,
  validate_active_configuration,
}
use determa_state_rust.State.Active.Sound.{all-IsKnown}

if-Returns : (b : Bool) (x y : Outcome Bool) → Returns x → Returns y → Returns (if b then x else y)
if-Returns true x y h k = h
if-Returns false x y h k = k

module _ {J : Type 0} (m : Machine J) (active : List StatePath) where
  orphan_none-Returns : (fuel : ℕ) → 0 < fuel → Returns (orphan_up m active fuel none)
  unfolding orphan_up
  orphan_none-Returns zero h = absurd (omega arith)
  orphan_none-Returns (suc fuel) h = tt

  orphan_parent-Returns :
      (fuel : ℕ) (p : StatePath) (parent : Option StatePath)
      → 0 < fuel
      → ParentFits m p parent
      → ((q : StatePath)
          → IsKnown m q
          → is_descendant p q ≡ true
          → Returns (orphan_up m active fuel (some q)))
      → Returns (orphan_up m active fuel parent)
  orphan_parent-Returns fuel p none h fits up = orphan_none-Returns fuel h
  orphan_parent-Returns fuel p (some q) h fits up = up q fits.1 fits.0

  orphan_up-Returns :
      (fuel : ℕ) (p : StatePath)
      → IsTree m
      → IsKnown m p
      → path_depth p + 1 < fuel
      → Returns (orphan_up m active fuel (some p))
  unfolding orphan_up
  orphan_up-Returns zero p t k lt = absurd (omega arith)
  orphan_up-Returns (suc fuel) p t (s, found) lt =
      let (up, fits) = parent_fits m p s t found in
      let parents : Returns (orphan_up m active fuel s.parent) =
        orphan_parent-Returns fuel p s.parent (omega arith) fits (λ q known below.
          orphan_up-Returns fuel q t known (omega (arith, depth-lt_of_descendant p q below))) in
      if-Returns (contains p active) (parent_of m p >>= orphan_up m active fuel) (ok true)
        (rw up parents) tt

  abbrev pub AreShallow : ℕ → List StatePath → Type 0
  AreShallow fuel paths = Every (λ p. path_depth p + 1 < fuel) paths

  any_orphan-Returns :
      (fuel : ℕ) (paths : List StatePath)
      → IsTree m
      → Every (IsKnown m) paths
      → AreShallow fuel paths
      → Returns (any_orphan m active fuel paths)
  unfolding any_orphan
  any_orphan-Returns fuel [] t k lt = tt
  any_orphan-Returns fuel (p ∷ paths) t ((s, found), k) lt =
      let (up, fits) = parent_fits m p s t found in
      let parents : Returns (orphan_up m active fuel s.parent) =
        orphan_parent-Returns fuel p s.parent (omega (arith, lt.0)) fits (λ q known below.
          orphan_up-Returns fuel q t known
            (omega (arith, lt.0, depth-lt_of_descendant p q below))) in
      Returns-bind (parent_of m p >>= orphan_up m active fuel) _ (rw up parents) λ orphan _.
        if-Returns orphan (ok true) (any_orphan m active fuel paths) tt
          (any_orphan-Returns fuel paths t k lt.1)

  kinds_fit-Returns :
      (paths : List StatePath) → Every (IsKnown m) paths → Returns (kinds_fit m active paths)
  unfolding kinds_fit
  kinds_fit-Returns [] k = tt
  kinds_fit-Returns (p ∷ paths) ((s, found), k) = rw (state_at_known m p s found) (
      if-Returns (fits_kind s.kind s.children (active_children active s)) (kinds_fit m active paths)
        (ok false) (kinds_fit-Returns paths k) tt)

-- In a tree of states, with more fuel than the depth of each active path and one, the validation returns
-- whatever is active, also paths that are no states: it neither panics nor runs out of fuel.
pub validate-Returns :
    {J : Type 0} (fuel : ℕ) (rt : RuntimeState J)
    → IsTree rt.definition
    → AreShallow rt.definition rt.active fuel rt.active
    → Returns (validate_active_configuration fuel rt)
unfolding validate_active_configuration
validate-Returns fuel rt t lt =
    elim (Bool-cases (any (λ p. not (is_found (lookup p rt.definition.states))) rt.active)) [
      | inl a ↦ rw a tt
      | inr a ↦
          let known = all-IsKnown rt.definition rt.active rt.active a in
          rw a (
            Returns-bind (any_orphan rt.definition rt.active fuel rt.active) _
              (any_orphan-Returns rt.definition rt.active fuel rt.active t known lt)
              λ orphan _. if-Returns orphan (ok false) _ tt (
                if-Returns (is_running rt.status && not (contains root rt.active)) (ok false) _ tt
                  (kinds_fit-Returns rt.definition rt.active rt.active known)))
    ]
