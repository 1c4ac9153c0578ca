-- ===== src/Tests/Exiting.antt =====
-- The boundary and the exits of transitions at concrete inputs.
use determa_state_rust.Prelude.{
  List, ◌⊎◌, String, ◌+◌, ◌<◌, true, false, Option, none, some, [], ◌∷◌, ◌≡◌, ◌↔◌, inl, inr, refl,
  arith, Elem,
}
use determa_state_rust.State.Paths.{
  StatePath, root, path_eq, path_depth, is_descendant, strip_prefix,
}
use determa_state_rust.State.Machine.{State}
use determa_state_rust.State.Outcome.{Outcome, ok, Yields}
use determa_state_rust.State.ByDepth.{sort_by_depth, insert_by_depth, LeavesFirst}
use determa_state_rust.State.Search.{lookup, state_at, parent_of}
use determa_state_rust.State.Search.Total.{IsKnown}
use determa_state_rust.State.Boundary.{transition_boundary, parent_expected, exits, exit_states}
use determa_state_rust.State.Boundary.Encloses.{IsBoundary, transition_boundary-IsBoundary}
use determa_state_rust.State.Boundary.Exits.{exits_iff}
use determa_state_rust.State.Boundary.Closed.{IsFaulted, IsClosed, exits-IsClosed}
use determa_state_rust.Tests.Machines.{path_a, path_ab, small, in_leaf}
use determa_state_rust.Tests.Selecting.{small-IsTree}

-- The leaf's transition to itself goes up to `a`, and a local one of `a` to its leaf stays at `a`.
boundary_runs :
    (transition_boundary small 4 path_ab path_ab false ≡ ok path_a)
    × (transition_boundary small 4 path_a path_ab true ≡ ok path_a)
    × (transition_boundary small 4 path_a path_ab false ≡ ok root)
unfolding transition_boundary parent_expected parent_of state_at lookup is_descendant strip_prefix
    path_eq
boundary_runs = (refl, refl, refl)

exits_run : exits in_leaf root ≡ path_ab ∷ path_a ∷ []
unfolding exits sort_by_depth insert_by_depth is_descendant strip_prefix path_eq path_depth
exits_run = refl

ab-IsKnown : IsKnown small path_ab
unfolding lookup path_eq
ab-IsKnown = (_, refl)

a-IsKnown : IsKnown small path_a
unfolding lookup path_eq
a-IsKnown = (_, refl)

ab_is_shallow : path_depth path_ab + 1 < 4
unfolding path_depth path_eq
ab_is_shallow = omega arith

a_is_shallow : path_depth path_a + 1 < 4
unfolding path_depth path_eq
a_is_shallow = omega arith

transition_boundary-IsBoundary_example :
    Yields
      (IsBoundary small path_ab path_a false)
      (transition_boundary small 4 path_ab path_a false)
transition_boundary-IsBoundary_example =
    transition_boundary-IsBoundary small 4 path_ab path_a false small-IsTree ab-IsKnown a-IsKnown
      ab_is_shallow a_is_shallow (λ e. ground arith)

exits_iff_example :
    ((p : StatePath)
      → Elem p (exits in_leaf path_a) ↔ (Elem p in_leaf.active × (is_descendant p path_a ≡ true)))
    × LeavesFirst (exits in_leaf path_a)
exits_iff_example = exits_iff in_leaf path_a

abbrev parent_in_small : StatePath → Option StatePath
parent_in_small p = elim (lookup p small.states) [ none ↦ none | some s ↦ s.parent ]

parent_path :
    (p : StatePath) (s : State String) (q r : StatePath)
    → parent_in_small p ≡ some r
    → lookup p small.states ≡ some s
    → s.parent ≡ some q
    → q ≡ r
parent_path p s q r known found up =
    let same : s.parent ≡ some r = rw (found, parent_in_small) at known in cc

no_parent :
    (p : StatePath) (s : State String) (q : StatePath)
    → parent_in_small p ≡ none
    → lookup p small.states ≡ some s
    → s.parent ≡ some q
    → ⊥
no_parent p s q known found up =
    let same : s.parent ≡ none = rw (found, parent_in_small) at known in cc

in_leaf-IsClosed : IsClosed small in_leaf.active
unfolding lookup path_eq
in_leaf-IsClosed p s q (inl e) found up =
    let known : lookup path_a small.states ≡ some s = rw e at found in
    inr (inr (inl (parent_path path_a s q root refl known up)))
in_leaf-IsClosed p s q (inr (inl e)) found up =
    let known : lookup path_ab small.states ≡ some s = rw e at found in
    inl (parent_path path_ab s q path_a refl known up)
in_leaf-IsClosed p s q (inr (inr (inl e))) found up =
    let known : lookup root small.states ≡ some s = rw e at found in
    absurd (no_parent root s q refl known up)
in_leaf-IsClosed p s q (inr (inr (inr none_left))) found up = elim none_left [ ]

abbrev leaves_quietly : StatePath → Outcome (Unit {0})
leaves_quietly p = ok tt

exits-IsClosed_example :
    IsFaulted leaves_quietly
      (exits in_leaf path_a)
      (exit_states leaves_quietly (exits in_leaf path_a) in_leaf.active)
    ⊎ ((left : List StatePath) × (exit_states leaves_quietly (exits in_leaf path_a) in_leaf.active
          ≡ ok left)
        × IsClosed small left)
exits-IsClosed_example =
    exits-IsClosed in_leaf path_a leaves_quietly (λ p. tt) small-IsTree in_leaf-IsClosed
