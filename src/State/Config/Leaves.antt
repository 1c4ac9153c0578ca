-- ===== src/State/Config/Leaves.antt =====
-- What `config` of format1/runtime.rs returns: the active leaves.
use determa_state_rust.Prelude.{
  Bool, true, false, List, [], ◌∷◌, any, filter, Elem, ◌≡◌, ◌≢◌, ◌⊎◌, ◌↔◌, Bool-cases, refl, arith,
  inl, inr,
}
use determa_state_rust.State.Paths.{StatePath, root, path_eq, is_descendant}
use determa_state_rust.State.Paths.Prefix.{path_eq_iff}
use determa_state_rust.State.Machine.{RuntimeState}
use determa_state_rust.State.Config.{
  shadows, bytes_le, insert_by_bytes, sort_by_bytes, is_leaf, config,
}

Elem-insert :
    (x p : StatePath) (l : List StatePath) → Elem x (insert_by_bytes p l) ↔ ((x ≡ p) ⊎ Elem x l)
unfolding insert_by_bytes
Elem-insert x p [] = (λ h. h, λ h. h)
Elem-insert x p (q ∷ l) = elim (Bool-cases (bytes_le p q)) [
  | inl a ↦ rw a (λ h. h, λ h. h)
  | inr a ↦ rw a (
    λ h. elim h [
      | inl e ↦ inr (inl e)
      | inr r ↦ elim ((Elem-insert x p l).0 r) [ inl e ↦ inl e | inr t ↦ inr (inr t) ]
    ],
    λ h. elim h [
      | inl e ↦ inr ((Elem-insert x p l).1 (inl e))
      | inr r ↦ elim r [ inl e ↦ inl e | inr t ↦ inr ((Elem-insert x p l).1 (inr t)) ]
    ],
  )
]

Elem-sort : (x : StatePath) (l : List StatePath) → Elem x (sort_by_bytes l) ↔ Elem x l
unfolding sort_by_bytes
Elem-sort x [] = (λ h. h, λ h. h)
Elem-sort x (p ∷ l) = (
  λ h. elim ((Elem-insert x p (sort_by_bytes l)).0 h) [
    | inl e ↦ inl e
    | inr t ↦ inr ((Elem-sort x l).0 t)
  ],
  λ h.
      (Elem-insert x p (sort_by_bytes l)).1
        (elim h [ inl e ↦ inl e | inr t ↦ inr ((Elem-sort x l).1 t) ]),
)

pub Elem-filter :
    (f : StatePath → Bool) (x : StatePath) (l : List StatePath)
    → Elem x (filter f l) ↔ (Elem x l × (f x ≡ true))
Elem-filter f x [] = (λ h. absurd h, λ h. h.0)
Elem-filter f x (p ∷ l) = elim (Bool-cases (f p)) [
  | inl a ↦ rw a (
    λ h. elim h [
      | inl e ↦ (inl e, rw e a)
      | inr t ↦ let (m, y) = (Elem-filter f x l).0 t in (inr m, y)
    ],
    λ h. elim h.0 [ inl e ↦ inl e | inr t ↦ inr ((Elem-filter f x l).1 (t, h.1)) ],
  )
  | inr a ↦ rw a (
    λ h. let (m, y) = (Elem-filter f x l).0 h in (inr m, y),
    λ h. elim h.0 [
      | inl e ↦ absurd (differ f x p e h.1 a)
      | inr t ↦ (Elem-filter f x l).1 (t, h.1)
    ],
  )
]
  where
    differ : (f : StatePath → Bool) (x p : StatePath) → x ≡ p → f x ≡ true → f p ≡ false → ⊥
    differ f x p e h a = cc (e, h, a)

any-false :
    (f : StatePath → Bool) (l : List StatePath)
    → (any f l ≡ false) ↔ ((q : StatePath) → Elem q l → f q ≡ false)
any-false f [] = (λ h q e. absurd e, λ h. refl)
any-false f (p ∷ l) = (
  λ h q e. elim e [ inl s ↦ rw s (ground arith) | inr t ↦ (any-false f l).0 (ground arith) q t ],
  λ h. rw (h p (inl refl)) ((any-false f l).1 (λ q t. h q (inr t))),
)

leaf_iff :
    (active : List StatePath) (p : StatePath)
    → (is_leaf active p ≡ true)
      ↔ ((q : StatePath) → Elem q active → q ≢ p → is_descendant q p ≢ true)
unfolding is_leaf
leaf_iff active p = (
  λ h q e n d.
      let quiet = (any-false (shadows p) active).0 (ground arith) q e in
      ground (arith, quiet, path_eq_iff q p),
  λ h. rw (
      (any-false (shadows p) active).1 (λ q e. elim (Bool-cases (is_descendant q p)) [
        | inl d ↦ elim (Bool-cases (path_eq q p)) [
          | inl same ↦ rw same
          | inr other ↦ absurd (h q e (λ s. cc (other, (path_eq_iff q p).1 s)) d)
        ]
        | inr d ↦ rw d (ground arith)
      ])),
)

-- A path is in the configuration exactly if it is active, is not the root, and no other active
-- path lies below it.
pub config_iff :
    {J : Type 0} (rt : RuntimeState J) (p : StatePath)
    → Elem p (config rt) ↔ (
        Elem p rt.active
        × (p ≢ root)
        × ((q : StatePath) → Elem q rt.active → q ≢ p → is_descendant q p ≢ true))
unfolding config
config_iff rt p = (
  λ h.
      let (m, inner) = (Elem-filter _ p _).0 ((Elem-sort p _).0 h) in
      let (active, leaf) = (Elem-filter (is_leaf rt.active) p rt.active).0 m in
      (active, ground (arith, path_eq_iff p root), (leaf_iff rt.active p).0 leaf),
  λ (active, inner, leaf). (Elem-sort p _).1 (
      (Elem-filter _ p _).1 (
        (Elem-filter (is_leaf rt.active) p rt.active).1 (active, (leaf_iff rt.active p).1 leaf),
        ground (arith, path_eq_iff p root),
      )),
)
