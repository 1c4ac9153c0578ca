-- ===== src/State/ByDepth.antt =====
-- `sort_by_key(|path| Reverse(path_depth(path)))` of format1/runtime.rs, a stable sort: deepest
-- first. `select_handler` tries its candidates and `perform_transition` exits states in this order.
use determa_state_rust.Prelude.{
  ◌≤◌, ◌≢◌, true, List, [], ◌∷◌, leb, if◌then◌else◌, Every, Bool-cases, inl, inr, arith,
}
use mathlib.Core.List.{Perm}
use mathlib.Core.List.Perm
use determa_state_rust.State.Paths.{StatePath, is_descendant, path_depth}
use determa_state_rust.State.Paths.Order.{depth-lt_of_descendant}

unfoldable pub insert_by_depth : StatePath → List StatePath → List StatePath
insert_by_depth p [] = p ∷ []
insert_by_depth p (q ∷ l) =
    if leb (path_depth q) (path_depth p) then p ∷ q ∷ l else q ∷ insert_by_depth p l

unfoldable pub sort_by_depth : List StatePath → List StatePath
unfolding insert_by_depth
sort_by_depth [] = []
sort_by_depth (p ∷ l) = insert_by_depth p (sort_by_depth l)

-- Each path is followed by none of its descendants.
abbrev pub LeavesFirst : List StatePath → Type 0
LeavesFirst [] = Unit
LeavesFirst (p ∷ l) = Every (λ q. is_descendant q p ≢ true) l × LeavesFirst l

abbrev Sorted : List StatePath → Type 0
Sorted [] = Unit
Sorted (p ∷ l) = Every (λ q. path_depth q ≤ path_depth p) l × Sorted l

Every-weaken :
    (p q : StatePath) (l : List StatePath)
    → path_depth q ≤ path_depth p
    → Every (λ r. path_depth r ≤ path_depth q) l
    → Every (λ r. path_depth r ≤ path_depth p) l
Every-weaken p q [] h e = tt
Every-weaken p q (r ∷ l) h e = (omega arith, Every-weaken p q l h e.1)

Every-insert :
    (P : StatePath → Type 0) (q : StatePath) (l : List StatePath)
    → P q
    → Every P l
    → Every P (insert_by_depth q l)
unfolding insert_by_depth
Every-insert P q [] h e = (h, tt)
Every-insert P q (r ∷ l) h e = elim (Bool-cases (leb (path_depth r) (path_depth q))) [
  | inl a ↦ rw a (h, (e.0, e.1))
  | inr a ↦ rw a (e.0, Every-insert P q l h e.1)
]

pub Every-sort_by_depth :
    (P : StatePath → Type 0) (l : List StatePath) → Every P l → Every P (sort_by_depth l)
unfolding sort_by_depth
Every-sort_by_depth P [] e = tt
Every-sort_by_depth P (p ∷ l) e =
    Every-insert P p (sort_by_depth l) e.0 (Every-sort_by_depth P l e.1)

insert-Sorted : (p : StatePath) (l : List StatePath) → Sorted l → Sorted (insert_by_depth p l)
unfolding insert_by_depth
insert-Sorted p [] s = (tt, tt)
insert-Sorted p (q ∷ l) s = elim (Bool-cases (leb (path_depth q) (path_depth p))) [
  | inl a ↦
      let h : path_depth q ≤ path_depth p = ground arith in
      rw a ((h, Every-weaken p q l h s.0), (s.0, s.1))
  | inr a ↦ rw a (
    Every-insert (λ r. path_depth r ≤ path_depth q) p l (ground arith) s.0,
    insert-Sorted p l s.1,
  )
]

sort-Sorted : (l : List StatePath) → Sorted (sort_by_depth l)
unfolding sort_by_depth
sort-Sorted [] = tt
sort-Sorted (p ∷ l) = insert-Sorted p (sort_by_depth l) (sort-Sorted l)

insert-perm : (p : StatePath) (l : List StatePath) → Perm (insert_by_depth p l) (p ∷ l)
unfolding insert_by_depth
insert-perm p [] = Perm.refl (p ∷ [])
insert-perm p (q ∷ l) = elim (Bool-cases (leb (path_depth q) (path_depth p))) [
  | inl a ↦ rw a (Perm.refl (p ∷ q ∷ l))
  | inr a ↦ rw a (Perm.trans (Perm.cons q (insert-perm p l)) (Perm.swap p q l))
]

pub sort-perm : (l : List StatePath) → Perm (sort_by_depth l) l
unfolding sort_by_depth
sort-perm [] = Perm.refl []
sort-perm (p ∷ l) = Perm.trans (insert-perm p (sort_by_depth l)) (Perm.cons p (sort-perm l))

no_descendant :
    (p : StatePath) (l : List StatePath)
    → Every (λ q. path_depth q ≤ path_depth p) l
    → Every (λ q. is_descendant q p ≢ true) l
no_descendant p [] e = tt
no_descendant p (q ∷ l) e =
    (λ h. absurd (omega (arith, depth-lt_of_descendant q p h)), no_descendant p l e.1)

LeavesFirst-of_Sorted : (l : List StatePath) → Sorted l → LeavesFirst l
LeavesFirst-of_Sorted [] s = tt
LeavesFirst-of_Sorted (p ∷ l) s = (no_descendant p l s.0, LeavesFirst-of_Sorted l s.1)

-- Sorting states by depth keeps every state, as often, and puts none before a state that lies
-- below it: children come before their parents.
pub sort_by_depth-LeavesFirst :
    (l : List StatePath) → Perm (sort_by_depth l) l × LeavesFirst (sort_by_depth l)
sort_by_depth-LeavesFirst l = (sort-perm l, LeavesFirst-of_Sorted (sort_by_depth l) (sort-Sorted l))
