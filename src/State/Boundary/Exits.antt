-- ===== src/State/Boundary/Exits.antt =====
-- The states that `perform_transition` of format1/runtime.rs exits.
use determa_state_rust.Prelude.{
  true, not, List, [], ◌∷◌, ◌≡◌, ◌⊎◌, ◌↔◌, ◌&&◌, inl, inr, leb, Elem, filter, Bool-cases, arith,
}
use determa_state_rust.State.Paths.{StatePath, path_eq, is_descendant, path_depth}
use determa_state_rust.State.Paths.Prefix.{path_eq_iff}
use determa_state_rust.State.Paths.Order.{descendant_strict_order}
use determa_state_rust.State.Machine.{RuntimeState}
use determa_state_rust.State.ByDepth.{
  insert_by_depth, sort_by_depth, LeavesFirst, sort_by_depth-LeavesFirst,
}
use determa_state_rust.State.Config.Leaves.{Elem-filter}
use determa_state_rust.State.Boundary.{exits}

Elem-insert :
    (x p : StatePath) (l : List StatePath) → Elem x (insert_by_depth p l) ↔ ((x ≡ p) ⊎ Elem x l)
unfolding insert_by_depth
Elem-insert x p [] = (λ h. h, λ h. h)
Elem-insert x p (q ∷ l) = elim (Bool-cases (leb (path_depth q) (path_depth p))) [
  | inl a ↦ rw a (λ h. h, λ h. h)
  | inr a ↦ rw a (
    λ h. elim h [
      | inl e ↦ inr (inl e)
      | inr r ↦ elim ((Elem-insert x p l).0 r) [ inl e ↦ inl e | inr t ↦ inr (inr t) ]
    ],
    λ h. elim h [
      | inl e ↦ inr ((Elem-insert x p l).1 (inl e))
      | inr r ↦ elim r [ inl e ↦ inl e | inr t ↦ inr ((Elem-insert x p l).1 (inr t)) ]
    ],
  )
]

Elem-sort : (x : StatePath) (l : List StatePath) → Elem x (sort_by_depth l) ↔ Elem x l
unfolding sort_by_depth
Elem-sort x [] = (λ h. h, λ h. h)
Elem-sort x (p ∷ l) = (
  λ h. elim ((Elem-insert x p (sort_by_depth l)).0 h) [
    | inl e ↦ inl e
    | inr t ↦ inr ((Elem-sort x l).0 t)
  ],
  λ h.
      (Elem-insert x p (sort_by_depth l)).1
        (elim h [ inl e ↦ inl e | inr t ↦ inr ((Elem-sort x l).1 t) ]),
)

below_is_other :
    (p boundary : StatePath)
    → is_descendant p boundary ≡ true
    → (not (path_eq p boundary) && is_descendant p boundary) ≡ true
below_is_other p boundary h = elim (Bool-cases (path_eq p boundary)) [
  | inl a ↦ absurd (descendant_strict_order.0 boundary (rw ((path_eq_iff p boundary).0 a) at h))
  | inr a ↦ ground arith
]

-- A transition exits exactly the active states below its boundary, and each of them before the active
-- states above it: no state that is exited later lies below one that was exited before.
pub exits_iff :
    {J : Type 0} (rt : RuntimeState J) (boundary : StatePath)
    → ((p : StatePath)
        → Elem p (exits rt boundary) ↔ (Elem p rt.active × (is_descendant p boundary ≡ true)))
      × LeavesFirst (exits rt boundary)
unfolding exits
exits_iff rt boundary =
    let below = filter (λ p. not (path_eq p boundary) && is_descendant p boundary) rt.active in
    (
      λ p. (
        λ h.
            let (a, b) = (Elem-filter _ p rt.active).0 ((Elem-sort p below).0 h) in
            (a, ground arith),
        λ h.
            (Elem-sort p below).1
              ((Elem-filter _ p rt.active).1 (h.0, below_is_other p boundary h.1)),
      ),
      (sort_by_depth-LeavesFirst below).1,
    )
