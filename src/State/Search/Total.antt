-- ===== src/State/Search/Total.antt =====
-- The search up through the parents ends, and no lookup on its way panics.
use determa_state_rust.Prelude.{
  ℕ, zero, suc, ◌+◌, ◌<◌, Option, none, some, List, [], ◌∷◌, ◌≡◌, true, Every, arith,
}
use determa_state_rust.State.Paths.{StatePath, root, is_descendant, path_depth}
use determa_state_rust.State.Paths.Order.{depth-lt_of_descendant}
use determa_state_rust.State.Machine.{State, Machine}
use determa_state_rust.State.Outcome.{Outcome, ok, ◌>>=◌, Returns, Returns-bind}
use determa_state_rust.State.Search.{lookup, state_at, parent_of, scan}
use determa_state_rust.State.Search.Entries.{every_lookup}
use determa_state_rust.State.Search.Unvisited.{or_else, climb_all, scan_all, scan-eq-scan_all}

module _ {J : Type 0} (m : Machine J) where
  abbrev pub IsKnown : StatePath → Type 0
  IsKnown p = (s : State J) × (lookup p m.states ≡ some s)

  -- The parent is a known state above, and only the root has none.
  abbrev pub ParentFits : StatePath → Option StatePath → Type 0
  ParentFits p none = p ≡ root
  ParentFits p (some q) = (is_descendant p q ≡ true) × IsKnown q

  abbrev pub EntryFits : StatePath × State J → Type 0
  EntryFits e = (e.1.path ≡ e.0) × ParentFits e.0 e.1.parent

-- What `compile_state` builds: each state under its own path, its parent above it.
pub record IsTree {J : Type 0} (m : Machine J) : Type 0 where
  pub entries : Every (EntryFits m) m.states
  pub rooted : IsKnown m root

module _ {J : Type 0} (m : Machine J) where
  pub state_at_known :
      (p : StatePath) (s : State J) → lookup p m.states ≡ some s → state_at m p ≡ ok s
  unfolding state_at
  state_at_known p s h = rw h

  pub parent_fits :
      (p : StatePath) (s : State J)
      → IsTree m
      → lookup p m.states ≡ some s
      → (parent_of m p ≡ ok s.parent) × ParentFits m p s.parent
  unfolding parent_of
  parent_fits p s t h =
      (rw (state_at_known p s h), (every_lookup (EntryFits m) m.states p s t.entries h).1)

module _ {J D : Type 0} (m : Machine J) (decide : StatePath → Outcome (Option D)) where
  -- At a known state the decision comes out, as a value or a fault.
  abbrev pub DecidesKnown : Type 0
  DecidesKnown = (p : StatePath) → IsKnown m p → Returns (decide p)

  climb_none-Returns : (fuel : ℕ) → 0 < fuel → Returns (climb_all m decide fuel none)
  unfolding climb_all
  climb_none-Returns zero h = absurd (omega arith)
  climb_none-Returns (suc fuel) h = tt

  climb_parent-Returns :
      (fuel : ℕ) (p : StatePath) (parent : Option StatePath)
      → 0 < fuel
      → ParentFits m p parent
      → ((q : StatePath)
          → IsKnown m q
          → is_descendant p q ≡ true
          → Returns (climb_all m decide fuel (some q)))
      → Returns (climb_all m decide fuel parent)
  climb_parent-Returns fuel p none h fits up = climb_none-Returns fuel h
  climb_parent-Returns fuel p (some q) h fits up = up q fits.1 fits.0

  or_else-Returns :
      (choice : Option D) (next : Unit {0} → Outcome (Option D))
      → Returns (next tt)
      → Returns (or_else next choice)
  or_else-Returns none next h = h
  or_else-Returns (some x) next h = tt

  climb-Returns :
      (fuel : ℕ) (p : StatePath)
      → IsTree m
      → DecidesKnown
      → IsKnown m p
      → path_depth p + 1 < fuel
      → Returns (climb_all m decide fuel (some p))
  unfolding climb_all
  climb-Returns zero p t d k lt = absurd (omega arith)
  climb-Returns (suc fuel) p t d (s, found) lt =
      let (up, fits) = parent_fits m p s t found in
      let parents : Returns (climb_all m decide fuel s.parent) =
        climb_parent-Returns fuel p s.parent (omega arith) fits (λ q known below.
          climb-Returns fuel q t d known (omega (arith, depth-lt_of_descendant p q below))) in
      Returns-bind (decide p) _ (d p (s, found)) λ choice _.
        or_else-Returns choice (λ _. parent_of m p >>= climb_all m decide fuel) (rw up parents)

  abbrev pub AreKnown : List StatePath → Type 0
  AreKnown leaves = Every (λ p. IsKnown m p) leaves

  abbrev pub AreShallow : ℕ → List StatePath → Type 0
  AreShallow fuel leaves = Every (λ p. path_depth p + 1 < fuel) leaves

  scan_all-Returns :
      (fuel : ℕ) (leaves : List StatePath)
      → IsTree m
      → DecidesKnown
      → AreKnown leaves
      → AreShallow fuel leaves
      → Returns (scan_all m decide fuel leaves)
  unfolding scan_all
  scan_all-Returns fuel [] t d k lt = tt
  scan_all-Returns fuel (p ∷ leaves) t d k lt =
      Returns-bind (climb_all m decide fuel (some p)) _ (climb-Returns fuel p t d k.0 lt.0)
        λ choice _.
          or_else-Returns choice (λ _. scan_all m decide fuel leaves)
            (scan_all-Returns fuel leaves t d k.1 lt.1)

  -- In a tree of states, from known candidates and with more fuel than their depth and one, the
  -- search returns if deciding at a known state does: it neither panics nor runs out of fuel.
  pub scan-Returns :
      (fuel : ℕ) (leaves : List StatePath)
      → IsTree m
      → DecidesKnown
      → AreKnown leaves
      → AreShallow fuel leaves
      → Returns (scan m decide fuel [] leaves)
  scan-Returns fuel leaves t d k lt =
      rw (scan-eq-scan_all m decide fuel leaves) (scan_all-Returns fuel leaves t d k lt)
