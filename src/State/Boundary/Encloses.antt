-- ===== src/State/Boundary/Encloses.antt =====
-- `transition_boundary` of format1/runtime.rs: the state that a transition neither exits nor enters.
use determa_state_rust.Prelude.{
  ℕ, ◌+◌, ◌<◌, Bool, true, false, Option, none, some, ◌≡◌, ◌≢◌, ◌⊎◌, inl, inr, refl, sym, ◌∙◌, ◌||◌,
  Bool-cases, arith,
}
use determa_state_rust.State.Paths.{StatePath, root, path_eq, is_descendant, path_depth}
use determa_state_rust.State.Paths.Order.{descendant_strict_order}
use determa_state_rust.State.Paths.Prefix.{path_eq_iff}
use determa_state_rust.State.Machine.{State, Machine}
use determa_state_rust.State.Outcome.{Yields, Yields-weaken}
use determa_state_rust.State.Search.{lookup}
use determa_state_rust.State.Search.Total.{IsTree, IsKnown, ParentFits, parent_fits}
use determa_state_rust.State.Boundary.{
  lowest_common_ancestor, expected, parent_expected, transition_boundary,
}
use determa_state_rust.State.Boundary.Ancestors.{
  IsAtOrAbove, IsAtOrAbove-up, IsLinkedUp, beyond_parent, IsAtOrAbove-of_linked, IsShared,
  lowest_common_ancestor-IsShared,
}

root_or_local :
    (source : StatePath) (local : Bool)
    → (path_eq source root || local) ≡ true
    → (source ≡ root) ⊎ (local ≡ true)
root_or_local source local h = elim (Bool-cases local) [
  | inl a ↦ inr a
  | inr a ↦ inl ((path_eq_iff source root).0 (ground arith))
]

module _ {J : Type 0} (m : Machine J) where
  -- A transition that is local, or whose source is the root, to a state below its source.
  abbrev pub IsKept : StatePath → StatePath → Bool → Type 0
  IsKept source target local =
      (is_descendant target source ≡ true) × ((source ≡ root) ⊎ (local ≡ true))

  abbrev pub IsLeft : StatePath → StatePath → Bool → Type 0
  IsLeft source target local =
      (is_descendant target source ≡ false) ⊎ ((source ≢ root) × (local ≡ false))

  -- Above the source, and at or below every other state that the links reach from source and target.
  abbrev pub IsLowestOutside : StatePath → StatePath → StatePath → Type 0
  IsLowestOutside source target b =
      (is_descendant source b ≡ true)
      × ((x : StatePath)
          → IsLinkedUp m source x
          → IsLinkedUp m target x
          → x ≢ source
          → IsAtOrAbove x b)

  -- The boundary is a known state at or above the target. A source that is kept is the boundary; any other
  -- source is exited, and the boundary is the lowest common ancestor outside it.
  abbrev pub IsBoundary : StatePath → StatePath → Bool → StatePath → Type 0
  IsBoundary source target local b =
      IsKnown m b
      × IsAtOrAbove b target
      × ((IsKept source target local × (b ≡ source))
          ⊎ (IsLeft source target local × IsLowestOutside source target b))

  -- The parent, as the link names it.
  abbrev IsLinkTo : StatePath → StatePath → Type 0
  IsLinkTo p q =
      IsKnown m q
      × (is_descendant p q ≡ true)
      × (s : State J) × (lookup p m.states ≡ some s)
      × (s.parent ≡ some q)

  parent_of_fits :
      (p : StatePath) (s : State J) (parent : Option StatePath)
      → p ≢ root
      → lookup p m.states ≡ some s
      → s.parent ≡ parent
      → ParentFits m p parent
      → Yields (IsLinkTo p) (expected parent)
  parent_of_fits p s none n found link fits = n fits
  parent_of_fits p s (some q) n found link fits = (fits.1, fits.0, s, found, link)

  parent-Yields :
      (p : StatePath)
      → IsTree m
      → IsKnown m p
      → p ≢ root
      → Yields (IsLinkTo p) (parent_expected m p)
  unfolding parent_expected
  parent-Yields p t (s, found) n =
      let (up, fits) = parent_fits m p s t found in
      rw up (parent_of_fits p s s.parent n found refl fits)

  parent_expected-IsLowestOutside :
      (p target q : StatePath) → IsTree m → IsLinkTo p q → IsLowestOutside p target q
  parent_expected-IsLowestOutside p target q t (k, below, s, found, link) =
      (below, λ x up _ n. beyond_parent m p q x s t found link up n)

  IsBoundary-of_parent :
      (source target b : StatePath) (local : Bool)
      → IsTree m
      → IsAtOrAbove source target
      → IsLeft source target local
      → IsLinkTo source b
      → IsBoundary source target local b
  IsBoundary-of_parent source target b local t (inl e) left parent = (
    parent.0,
    inr (rw (sym e) (parent.1)),
    inr (left, parent_expected-IsLowestOutside source target b t parent),
  )
  IsBoundary-of_parent source target b local t (inr below) left parent = (
    parent.0,
    IsAtOrAbove-up target source b below (inr (parent.1)),
    inr (left, parent_expected-IsLowestOutside source target b t parent),
  )

  IsBoundary-of_common :
      (source target b : StatePath) (local : Bool)
      → path_eq source target ≡ false
      → is_descendant target source ≡ false
      → IsShared m source target b
      → IsBoundary source target local b
  IsBoundary-of_common source target b local differ apart ((inr h, k), above, low) =
      (k, above, inr (inl apart, (h, λ x u v _. low x u v)))
  IsBoundary-of_common source target b local differ apart ((inl e, k), inl e', low) =
      absurd (ground (arith, path_eq_iff source target, (sym e ∙ e')))
  IsBoundary-of_common source target b local differ apart ((inl e, k), inr h, low) =
      let h' : is_descendant target source ≡ true = rw (sym e) h in cc

  not_below_itself : (p q : StatePath) → p ≡ q → is_descendant q p ≡ false
  not_below_itself p q e = elim (Bool-cases (is_descendant q p)) [
    | inl h ↦ absurd (descendant_strict_order.0 p (rw (sym e) at h))
    | inr h ↦ h
  ]

  IsLeft-of_test :
      (source target : StatePath) (local : Bool)
      → (path_eq source root || local) ≡ false
      → IsLeft source target local
  IsLeft-of_test source target local h = inr (ground (arith, path_eq_iff source root))

  -- The boundary of a transition between known states of a tree comes out, with more fuel than their
  -- depths and one, unless the root transitions to itself, which loading rejects. It is a known state at or
  -- above the target. Where the target lies below the source, and the transition is local or the source
  -- the root, it is the source itself. Everywhere else it lies above the source, which is therefore exited,
  -- and at or below every state that the links to a parent reach from both source and target, the source
  -- itself left out: it is their lowest common ancestor.
  pub transition_boundary-IsBoundary :
      (fuel : ℕ) (source target : StatePath) (local : Bool)
      → IsTree m
      → IsKnown m source
      → IsKnown m target
      → path_depth source + 1 < fuel
      → path_depth target + 1 < fuel
      → (source ≡ target → source ≢ root)
      → Yields (IsBoundary source target local) (transition_boundary m fuel source target local)
  unfolding transition_boundary
  transition_boundary-IsBoundary fuel source target local t k l d e n =
      elim (Bool-cases (path_eq source target)) [
        | inl same ↦
            let e' : source ≡ target = (path_eq_iff source target).0 same in
            rw same (
              Yields-weaken _ (IsBoundary source target local) (parent_expected m source)
                (λ b h.
                  IsBoundary-of_parent source target b local t (inl e')
                    (inl (not_below_itself source target e')) h)
                (parent-Yields source t k (n e')))
        | inr differ ↦ rw differ (elim (Bool-cases (is_descendant target source)) [
          | inl below ↦ rw below (elim (Bool-cases (path_eq source root || local)) [
            | inl stays ↦
                rw stays (k, inr below, inl ((below, root_or_local source local stays), refl))
            | inr leaves ↦ rw leaves (
                Yields-weaken _ (IsBoundary source target local) (parent_expected m source)
                  (λ b h.
                    IsBoundary-of_parent source target b local t (inr below)
                      (IsLeft-of_test source target local leaves) h)
                  (parent-Yields source t k (λ r. ground (arith, path_eq_iff source root))))
          ])
          | inr apart ↦ rw apart (elim (Bool-cases (is_descendant source target)) [
            | inl above ↦ rw above (
              l,
              inl refl,
              inr (inl apart, (above, λ x u v _. IsAtOrAbove-of_linked m v.0 target x t v.1)),
            )
            | inr beside ↦ rw beside (
                Yields-weaken _ (IsBoundary source target local)
                  (lowest_common_ancestor m fuel source target)
                  (λ b h. IsBoundary-of_common source target b local differ apart h)
                  (lowest_common_ancestor-IsShared m fuel source target t k l d e))
          ])
        ])
      ]
