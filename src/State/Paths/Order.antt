-- ===== src/State/Paths/Order.antt =====
-- `is_descendant` of format1/runtime.rs is a strict order, and `path_depth` grows along it.
use mathlib.Core.List.{append_assoc}
use determa_state_rust.Prelude.{
  ℕ, ◌<◌, ◌++◌, ◌≡◌, refl, ap, true, Option, none, some, [], ◌∷◌, ==_iff, Bool-cases, inl, inr, ◌⊎◌,
  ◌↔◌, arith, ◌≢◌, sym, ◌∙◌,
}
use determa_state_rust.State.Paths.{
  StatePath, root, strip_prefix, is_below, is_descendant, path_depth,
}
use determa_state_rust.State.Paths.Prefix.{
  path_eq_iff, append_of_strip, strip_prefix-append, split_count_pos, split_count-append_dot,
  append_cons-ne_self,
}

-- What the code's test means: below the root, or longer by a dot and more.
abbrev pub Below : StatePath → StatePath → Type 0
Below p a = ((a ≡ root) × (p ≢ root)) ⊎ ((s : StatePath) × (p ≡ a ++ (b'.' ∷ s)))

below_of_strip :
    (p a : StatePath) (o : Option StatePath)
    → strip_prefix p a ≡ o
    → is_below o ≡ true
    → (s : StatePath) × (p ≡ a ++ (b'.' ∷ s))
below_of_strip p a none e h = ground arith
below_of_strip p a (some []) e h = ground arith
below_of_strip p a (some (c ∷ s)) e h =
    (s, append_of_strip p a (c ∷ s) e ∙ ap (λ (d : ℕ). a ++ (d ∷ s)) ((==_iff c b'.').0 h))

Below-of_descendant : (p a : StatePath) → is_descendant p a ≡ true → Below p a
unfolding is_descendant
Below-of_descendant p a h = elim (Bool-cases (is_below (strip_prefix p a))) [
  | inl e ↦ inr (below_of_strip p a (strip_prefix p a) refl e)
  | inr e ↦ inl (ground (arith, path_eq_iff a root, path_eq_iff p root))
]

descendant_of_Below : (p a : StatePath) → Below p a → is_descendant p a ≡ true
unfolding is_descendant
descendant_of_Below p a (inl (e, n)) = ground (arith, path_eq_iff a root, path_eq_iff p root)
descendant_of_Below p a (inr (s, e)) =
    ground (arith, ap (λ (q : StatePath). strip_prefix q a) e, strip_prefix-append a (b'.' ∷ s))

-- `is_descendant path ancestor` holds exactly if the ancestor is the root and the path is not, or
-- the path goes on from the ancestor by a dot.
pub descendant_iff : (p a : StatePath) → (is_descendant p a ≡ true) ↔ Below p a
descendant_iff p a = (Below-of_descendant p a, descendant_of_Below p a)

-- The root has no dot in it, so nothing has the root's name below it.
pub root-ne-append_dot : (a s : StatePath) → root ≢ a ++ (b'.' ∷ s)
root-ne-append_dot [] s h = ground arith
root-ne-append_dot (a ∷ []) s h = ground arith
root-ne-append_dot (a ∷ b ∷ []) s h = ground arith
root-ne-append_dot (a ∷ b ∷ c ∷ []) s h = ground arith
root-ne-append_dot (a ∷ b ∷ c ∷ d ∷ []) s h = ground arith
root-ne-append_dot (a ∷ b ∷ c ∷ d ∷ e ∷ r) s h = ground arith

Below-irrefl : (p : StatePath) → ¬ Below p p
Below-irrefl p (inl (e, n)) = n e
Below-irrefl p (inr (s, e)) = append_cons-ne_self p b'.' s e

Below-trans : (p q r : StatePath) → Below p q → Below q r → Below p r
Below-trans p q r (inl (e, n)) (inl (e', n')) = absurd (n' e)
Below-trans p q r (inl (e, n)) (inr (s, e')) = absurd (root-ne-append_dot r s (sym e ∙ e'))
Below-trans p q r (inr (s, e)) (inl (e', n')) =
    inl (e', λ p_root. root-ne-append_dot q s (sym p_root ∙ e))
Below-trans p q r (inr (s, e)) (inr (t, e')) = inr (
  t ++ (b'.' ∷ s),
  e ∙ ap (λ (x : StatePath). x ++ (b'.' ∷ s)) e' ∙ append_assoc r (b'.' ∷ t) (b'.' ∷ s),
)

depth-lt_of_Below : (p a : StatePath) → Below p a → path_depth a < path_depth p
unfolding path_depth
depth-lt_of_Below p a (inl (e, n)) =
    ground (arith, path_eq_iff a root, path_eq_iff p root, split_count_pos p)
depth-lt_of_Below p a (inr (s, e)) = ground (
  arith,
  path_eq_iff a root,
  path_eq_iff p root,
  split_count_pos s,
  split_count_pos a,
  split_count-append_dot a s,
  root-ne-append_dot a s,
)

-- Being a descendant is a strict order: no path is its own descendant, and a descendant of a
-- descendant is a descendant.
pub descendant_strict_order :
    ((p : StatePath) → is_descendant p p ≢ true)
    × ((p q r : StatePath)
        → is_descendant p q ≡ true
        → is_descendant q r ≡ true
        → is_descendant p r ≡ true)
descendant_strict_order = (
  λ p h. Below-irrefl p (Below-of_descendant p p h),
  λ p q r h k.
      descendant_of_Below p r
        (Below-trans p q r (Below-of_descendant p q h) (Below-of_descendant q r k)),
)

-- A descendant lies strictly deeper than its ancestor.
pub depth-lt_of_descendant :
    (p a : StatePath) → is_descendant p a ≡ true → path_depth a < path_depth p
depth-lt_of_descendant p a h = depth-lt_of_Below p a (Below-of_descendant p a h)
