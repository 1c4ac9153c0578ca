-- ===== src/State/Boundary/Ancestors.antt =====
-- The ancestors of a known state, and the boundary's relation to source and target.
use determa_state_rust.Prelude.{
  ◌≢◌, sym, ℕ, zero, suc, ◌+◌, ◌<◌, true, false, Option, none, some, List, [], ◌∷◌, ◌≡◌, ◌⊎◌, inl,
  inr, refl, Every, find, Bool-cases, arith,
}
use determa_state_rust.State.Paths.{StatePath, root, path_eq, is_descendant, path_depth}
use determa_state_rust.State.Paths.Prefix.{path_eq_iff}
use determa_state_rust.State.Paths.Order.{depth-lt_of_descendant, descendant_strict_order}
use determa_state_rust.State.Machine.{State, Machine}
use determa_state_rust.State.Outcome.{Yields-weaken, ok, ◌>>=◌, Yields, Yields-bind}
use determa_state_rust.State.Search.{lookup, contains}
use determa_state_rust.State.Search.Total.{IsTree, IsKnown, ParentFits, parent_fits}
use determa_state_rust.State.Boundary.{ancestors_to_root, lowest_common_ancestor, expected}

-- `b` is `p` or an ancestor of it.
abbrev pub IsAtOrAbove : StatePath → StatePath → Type 0
IsAtOrAbove b p = (b ≡ p) ⊎ (is_descendant p b ≡ true)

pub IsAtOrAbove-up :
    (p q b : StatePath) → is_descendant p q ≡ true → IsAtOrAbove b q → IsAtOrAbove b p
IsAtOrAbove-up p q b h (inl e) = inr (rw e h)
IsAtOrAbove-up p q b h (inr k) = inr (descendant_strict_order.1 p q b h k)

module _ {J : Type 0} (m : Machine J) where
  -- A known state at or above `p`.
  abbrev pub IsAncestor : StatePath → StatePath → Type 0
  IsAncestor p b = IsAtOrAbove b p × IsKnown m b

  -- `q` is `n` links to a parent up from `p`.
  pub IsUp : ℕ → StatePath → StatePath → Type 0
  IsUp zero p q = q ≡ p
  IsUp (suc n) p q =
      (s : State J) × (lookup p m.states ≡ some s)
      × (parent : StatePath) × (s.parent ≡ some parent)
      × IsUp n parent q

  -- `q` is `p` or reached from it by the links.
  abbrev pub IsLinkedUp : StatePath → StatePath → Type 0
  IsLinkedUp p q = (n : ℕ) × IsUp n p q

  -- Each element is below all that come after it.
  pub IsDescending : List StatePath → Type 0
  IsDescending [] = Unit
  IsDescending (x ∷ l) = Every (λ y. is_descendant x y ≡ true) l × IsDescending l

  abbrev pub HoldsLinked : StatePath → List StatePath → Type 0
  HoldsLinked p l = (n : ℕ) (q : StatePath) → IsUp n p q → contains q l ≡ true

  -- The chain starts at `p`, ends at the root, and goes up; all of it is above `p`, and all that the links
  -- reach from `p` is in it.
  abbrev pub IsChain : StatePath → List StatePath → Type 0
  IsChain p l =
      Every (IsAncestor p) l
      × (contains p l ≡ true)
      × (contains root l ≡ true)
      × IsDescending l
      × HoldsLinked p l

  -- The links lead to ancestors.
  pub IsAtOrAbove-of_linked : (n : ℕ) (p q : StatePath) → IsTree m → IsUp n p q → IsAtOrAbove q p
  unfolding IsUp
  IsAtOrAbove-of_linked zero p q t h = inl h
  IsAtOrAbove-of_linked (suc n) p q t (s, found, parent, up, more) =
      let own = (parent_fits m p s t found).1 in
      let fits : ParentFits m p (some parent) = rw up at own in
      IsAtOrAbove-up p parent q fits.0 (IsAtOrAbove-of_linked n parent q t more)

  -- What the links reach beyond a state, they reach from its parent.
  pub beyond_parent :
      (p q x : StatePath) (s : State J)
      → IsTree m
      → lookup p m.states ≡ some s
      → s.parent ≡ some q
      → IsLinkedUp p x
      → x ≢ p
      → IsAtOrAbove x q
  unfolding IsUp
  beyond_parent p q x s t found link (zero, e) n = absurd (n e)
  beyond_parent p q x s t found link (suc k, (s', found', parent, link', more)) n =
      let same : parent ≡ q = cc in IsAtOrAbove-of_linked k q x t (rw (sym same) more)

  Every-below :
      (p q : StatePath) (l : List StatePath)
      → is_descendant p q ≡ true
      → Every (IsAncestor q) l
      → Every (λ y. is_descendant p y ≡ true) l
  Every-below p q [] h e = tt
  Every-below p q (b ∷ l) h (((inl same), k), rest) = (rw same h, Every-below p q l h rest)
  Every-below p q (b ∷ l) h (((inr below), k), rest) =
      (descendant_strict_order.1 p q b h below, Every-below p q l h rest)

  HoldsLinked-step :
      (p q : StatePath) (s : State J) (l : List StatePath)
      → lookup p m.states ≡ some s
      → s.parent ≡ some q
      → HoldsLinked q l
      → HoldsLinked p (p ∷ l)
  unfolding IsUp
  HoldsLinked-step p q s l found up holds zero x h = ground (arith, (path_eq_iff x p).1 h)
  HoldsLinked-step p q s l found up holds (suc n) x (s', found', parent, up', more) =
      let same : parent ≡ q = cc in ground (arith, holds n x (rw (sym same) more))

  HoldsLinked-root :
      (p : StatePath) (s : State J)
      → lookup p m.states ≡ some s
      → s.parent ≡ none
      → HoldsLinked p (p ∷ [])
  unfolding IsUp
  HoldsLinked-root p s found up zero x h = ground (arith, (path_eq_iff x p).1 h)
  HoldsLinked-root p s found up (suc n) x (s', found', parent, up', more) = absurd (cc)

  Every-up :
      (p q : StatePath) (l : List StatePath)
      → is_descendant p q ≡ true
      → Every (IsAncestor q) l
      → Every (IsAncestor p) l
  Every-up p q [] h e = tt
  Every-up p q (b ∷ l) h e = ((IsAtOrAbove-up p q b h e.0.0, e.0.1), Every-up p q l h e.1)

  IsChain-step :
      (p q : StatePath) (s : State J) (l : List StatePath)
      → is_descendant p q ≡ true
      → lookup p m.states ≡ some s
      → s.parent ≡ some q
      → IsChain q l
      → IsChain p (p ∷ l)
  unfolding IsDescending
  IsChain-step p q s l h found up (e, _, r, descending, holds) = (
    ((inl refl, (s, found)), Every-up p q l h e),
    ground (arith, path_eq_iff p p),
    ground arith,
    (Every-below p q l h e, descending),
    HoldsLinked-step p q s l found up holds,
  )

  IsChain-root :
      (p : StatePath) (s : State J)
      → p ≡ root
      → lookup p m.states ≡ some s
      → s.parent ≡ none
      → IsChain p (p ∷ [])
  unfolding IsDescending
  IsChain-root p s e found up = (
    ((inl refl, (s, found)), tt),
    ground (arith, path_eq_iff p p),
    ground (arith, path_eq_iff root p),
    (tt, tt),
    HoldsLinked-root p s found up,
  )

  ancestors_none : (fuel : ℕ) → 0 < fuel → ancestors_to_root m fuel none ≡ ok []
  unfolding ancestors_to_root
  ancestors_none zero h = absurd (omega arith)
  ancestors_none (suc fuel) h = refl

  ancestors_parent :
      (fuel : ℕ) (p : StatePath) (s : State J) (parent : Option StatePath)
      → 0 < fuel
      → lookup p m.states ≡ some s
      → s.parent ≡ parent
      → ParentFits m p parent
      → ((q : StatePath)
          → IsKnown m q
          → is_descendant p q ≡ true
          → Yields (IsChain q) (ancestors_to_root m fuel (some q)))
      → Yields (IsChain p) (ancestors_to_root m fuel parent >>= λ rest. ok (p ∷ rest))
  ancestors_parent fuel p s none h found link fits up =
      rw (ancestors_none fuel h) (IsChain-root p s fits found link)
  ancestors_parent fuel p s (some q) h found link fits up =
      Yields-bind (IsChain q) (IsChain p) (ancestors_to_root m fuel (some q)) _ (up q fits.1 fits.0)
        (λ l chain. IsChain-step p q s l fits.0 found link chain)

  -- In a tree of states, with more fuel than the state's depth and one, the ancestors of a known state
  -- come out, each below the next: the state itself, all that its links to a parent reach, and the root
  -- are among them, and each of them is known and at or above the state.
  pub ancestors-IsChain :
      (fuel : ℕ) (p : StatePath)
      → IsTree m
      → IsKnown m p
      → path_depth p + 1 < fuel
      → Yields (IsChain p) (ancestors_to_root m fuel (some p))
  unfolding ancestors_to_root
  ancestors-IsChain zero p t k lt = absurd (omega arith)
  ancestors-IsChain (suc fuel) p t (s, found) lt =
      let (up, fits) = parent_fits m p s t found in
      let chain : Yields (IsChain p) (ancestors_to_root m fuel s.parent >>= λ rest. ok (p ∷ rest)) =
        ancestors_parent fuel p s s.parent (omega arith) found refl fits (λ q known below.
          ancestors-IsChain fuel q t known (omega (arith, depth-lt_of_descendant p q below))) in
      rw up chain

  Every-contains :
      (P : StatePath → Type 0) (p : StatePath) (l : List StatePath)
      → Every P l
      → contains p l ≡ true
      → P p
  Every-contains P p [] e h = cc
  Every-contains P p (q ∷ l) e h = elim (Bool-cases (path_eq p q)) [
    | inl a ↦ rw ((path_eq_iff p q).0 a) e.0
    | inr a ↦ Every-contains P p l e.1 (ground arith)
  ]

  absent_not_root :
      (x : StatePath) (left : List StatePath)
      → contains root left ≡ true
      → contains x left ≡ false
      → path_eq root x ≡ false
  absent_not_root x left r c = elim (Bool-cases (path_eq root x)) [
    | inl a ↦
        let e : root ≡ x = (path_eq_iff root x).0 a in
        let c' : contains root left ≡ false = rw e c in cc
    | inr a ↦ a
  ]

  -- At or below every state that the links reach from both.
  abbrev pub IsLowest : StatePath → StatePath → StatePath → Type 0
  IsLowest p q b = (x : StatePath) → IsLinkedUp p x → IsLinkedUp q x → IsAtOrAbove x b

  abbrev pub IsShared : StatePath → StatePath → StatePath → Type 0
  IsShared p q b = IsAncestor p b × IsAtOrAbove b q × IsLowest p q b

  -- Above `b`, and in both lists, means at or above `b`.
  abbrev IsFirstIn : List StatePath → List StatePath → StatePath → Type 0
  IsFirstIn left right b =
      (x : StatePath) → contains x left ≡ true → contains x right ≡ true → IsAtOrAbove x b

  first_here :
      (b : StatePath) (left right : List StatePath)
      → Every (λ y. is_descendant b y ≡ true) right
      → IsFirstIn left (b ∷ right) b
  first_here b left right below x l r = elim (Bool-cases (path_eq x b)) [
    | inl a ↦ inl ((path_eq_iff x b).0 a)
    | inr a ↦ inr (Every-contains (λ y. is_descendant b y ≡ true) x right below (ground arith))
  ]

  first_later :
      (b y : StatePath) (left right : List StatePath)
      → contains y left ≡ false
      → IsFirstIn left right b
      → IsFirstIn left (y ∷ right) b
  first_later b y left right absent first x l r = elim (Bool-cases (path_eq x y)) [
    | inl a ↦
        let e : x ≡ y = (path_eq_iff x y).0 a in
        let l' : contains y left ≡ true = rw (sym e) l in cc
    | inr a ↦ first x l (ground arith)
  ]

  common_found :
      (p q : StatePath) (left right : List StatePath)
      → Every (IsAncestor p) left
      → contains root left ≡ true
      → Every (IsAncestor q) right
      → contains root right ≡ true
      → IsDescending right
      → Yields
          (λ b. IsAncestor p b × IsAtOrAbove b q × IsFirstIn left right b)
          (expected (find (λ x. contains x left) right))
  unfolding IsDescending
  common_found p q left [] a r b s d = absurd (ground arith)
  common_found p q left (x ∷ right) a r b s d = elim (Bool-cases (contains x left)) [
    | inl c ↦ rw c (Every-contains (IsAncestor p) x left a c, b.0.0, first_here x left right d.0)
    | inr c ↦ rw c (
        Yields-weaken (λ z. IsAncestor p z × IsAtOrAbove z q × IsFirstIn left right z)
          (λ z. IsAncestor p z × IsAtOrAbove z q × IsFirstIn left (x ∷ right) z)
          (expected (find (λ y. contains y left) right))
          (λ z h. (h.0, h.1, first_later z x left right c h.2))
          (common_found p q left right a r b.1 (ground (arith, absent_not_root x left r c)) d.1))
  ]

  -- The lowest common ancestor of two known states comes out, a known state at or above both, and at or
  -- below every state that the links to a parent reach from both.
  pub lowest_common_ancestor-IsShared :
      (fuel : ℕ) (p q : StatePath)
      → IsTree m
      → IsKnown m p
      → IsKnown m q
      → path_depth p + 1 < fuel
      → path_depth q + 1 < fuel
      → Yields (IsShared p q) (lowest_common_ancestor m fuel p q)
  unfolding lowest_common_ancestor
  lowest_common_ancestor-IsShared fuel p q t k l d e =
      Yields-bind (IsChain p) (IsShared p q) (ancestors_to_root m fuel (some p)) _
        (ancestors-IsChain fuel p t k d)
        λ left a.
          Yields-bind (IsChain q) (IsShared p q) (ancestors_to_root m fuel (some q)) _
            (ancestors-IsChain fuel q t l e)
            λ right b.
              Yields-weaken (λ z. IsAncestor p z × IsAtOrAbove z q × IsFirstIn left right z)
                (IsShared p q) (expected (find (λ y. contains y left) right))
                (λ z h. (h.0, h.1, λ x u v. h.2 x (a.4 u.0 x u.1) (b.4 v.0 x v.1)))
                (common_found p q left right a.0 a.2 b.0 b.2 b.3)
